-- ===== src/Request/Extraction.antt =====
-- Taking "/clusters/{cluster}" off a path, and trimming slashes.
use bke_console_service.Prelude.{
  ℕ, ◌<◌, ◌≡◌, ◌≢◌, ◌↔◌, refl, ap, ◌∙◌, true, false, List, [], ◌∷◌, ◌++◌, arith, All, length,
}
use bke_console_service.Text.{
  Text, codes, trim_left_slash, trim_right_slash, trim_slash, keep_right, split, join,
}
use bke_console_service.Text.Equality.{text_eq_iff}
use bke_console_service.Text.Split.{Lacks, split-join}
use bke_console_service.Request.{split_trimmed, split_path, part_at, extract_from, extract_cluster}

keep_right-plain : (c : ℕ) (t : Text) → c ≢ b'/' → keep_right c t ≡ c ∷ t
unfolding keep_right
keep_right-plain c [] h = ground arith
keep_right-plain c (d ∷ t) h = refl

trim_right_slash_plain : (s : Text) → Lacks b'/' s → trim_right_slash s ≡ s
unfolding trim_right_slash
trim_right_slash_plain [] h = refl
trim_right_slash_plain (c ∷ s) (n, h) =
    ap (keep_right c) (trim_right_slash_plain s h) ∙ keep_right-plain c s n

keep_right-nonempty : (c : ℕ) (t : Text) → t ≢ [] → keep_right c t ≡ c ∷ t
unfolding keep_right
keep_right-nonempty c [] h = absurd (h refl)
keep_right-nonempty c (d ∷ t) h = refl

append-ne-nil : (s t : Text) → t ≢ [] → s ++ t ≢ []
append-ne-nil [] t h = h
append-ne-nil (c ∷ s) t h = λ e. cc e

trim_right_slash-append :
    (s t : Text) → t ≢ [] → trim_right_slash t ≡ t → trim_right_slash (s ++ t) ≡ s ++ t
unfolding trim_right_slash
trim_right_slash-append [] t n h = h
trim_right_slash-append (c ∷ s) t n h =
    ap (keep_right c) (trim_right_slash-append s t n h)
    ∙ keep_right-nonempty c (s ++ t) (append-ne-nil s t n)

-- The last part of a path is not empty.
abbrev pub EndsFull : List Text → Type 0
EndsFull [] = ⊥
EndsFull (p ∷ []) = p ≢ []
EndsFull (p ∷ q ∷ ps) = EndsFull (q ∷ ps)

join-ne-nil : (p : Text) (ps : List Text) → EndsFull (p ∷ ps) → join b'/' (p ∷ ps) ≢ []
unfolding join
join-ne-nil p [] h = h
join-ne-nil p (q ∷ ps) h = append-ne-nil p _ (λ e. cc e)

trim_right_slash-join :
    (p : Text) (ps : List Text)
    → All (Lacks b'/') (p ∷ ps)
    → EndsFull (p ∷ ps)
    → trim_right_slash (join b'/' (p ∷ ps)) ≡ join b'/' (p ∷ ps)
unfolding join
trim_right_slash-join p [] (l, _) h = trim_right_slash_plain p l
trim_right_slash-join p (q ∷ ps) (l, ls) h =
    trim_right_slash-append p (b'/' ∷ join b'/' (q ∷ ps)) (λ e. cc e)
      (trim_right_slash-append (b'/' ∷ []) (join b'/' (q ∷ ps)) (join-ne-nil q ps h)
        (trim_right_slash-join q ps ls h))

trim_left_slash-slash : (c : ℕ) (s : Text) → c ≢ b'/' → trim_left_slash (b'/' ∷ c ∷ s) ≡ c ∷ s
unfolding trim_left_slash
trim_left_slash-slash c s h = ground arith

-- The first part does not begin with a slash and is not empty.
split_trimmed-full : (s : Text) → s ≢ [] → split_trimmed s ≡ split b'/' s
unfolding split_trimmed
split_trimmed-full [] h = absurd (h refl)
split_trimmed-full (c ∷ s) h = refl

trim_slash-join :
    (c : ℕ) (p : Text) (ps : List Text)
    → All (Lacks b'/') ((c ∷ p) ∷ ps)
    → EndsFull ((c ∷ p) ∷ ps)
    → trim_slash (b'/' ∷ join b'/' ((c ∷ p) ∷ ps)) ≡ join b'/' ((c ∷ p) ∷ ps)
unfolding trim_slash join
trim_slash-join c p [] (l, ls) h =
    ap trim_right_slash (trim_left_slash-slash c p l.0) ∙ trim_right_slash-join (c ∷ p) [] (l, ls) h
trim_slash-join c p (q ∷ ps) (l, ls) h =
    ap trim_right_slash (trim_left_slash-slash c (p ++ b'/' ∷ join b'/' (q ∷ ps)) l.0)
    ∙ trim_right_slash-join (c ∷ p) (q ∷ ps) (l, ls) h

-- The parts of a path written with one slash before each part.
pub split_path-join :
    (c : ℕ) (p : Text) (ps : List Text)
    → All (Lacks b'/') ((c ∷ p) ∷ ps)
    → EndsFull ((c ∷ p) ∷ ps)
    → split_path (b'/' ∷ join b'/' ((c ∷ p) ∷ ps)) ≡ (c ∷ p) ∷ ps
unfolding split_path
split_path-join c p ps l h =
    ap split_trimmed (trim_slash-join c p ps l h)
    ∙ split_trimmed-full _ (join-ne-nil (c ∷ p) ps h)
    ∙ split-join b'/' (c ∷ p) ps l

extract_from-clusters :
    (path name q : Text) (ps : List Text)
    → extract_from path (codes "clusters" ∷ name ∷ q ∷ ps)
      ≡ record { cluster_name = name; pathname = b'/' ∷ join b'/' (q ∷ ps); found = true }
unfolding extract_from
extract_from-clusters path name q ps = ground arith

-- A path under "/clusters/" gives the name of its cluster and the path behind that name, where
-- something stands behind it, no part holds a slash and the last one is not empty.
pub extract_cluster-clusters :
    (name q : Text) (ps : List Text)
    → All (Lacks b'/') (name ∷ q ∷ ps)
    → EndsFull (q ∷ ps)
    → extract_cluster (b'/' ∷ join b'/' (codes "clusters" ∷ name ∷ q ∷ ps))
      ≡ record { cluster_name = name; pathname = b'/' ∷ join b'/' (q ∷ ps); found = true }
unfolding extract_cluster
extract_cluster-clusters name q ps l h =
    ap (extract_from (b'/' ∷ join b'/' (codes "clusters" ∷ name ∷ q ∷ ps)))
      (split_path-join b'c' (codes "lusters") (name ∷ q ∷ ps) (omega arith, l) h)
    ∙ extract_from-clusters _ name q ps

-- A cluster is found exactly in a path of three parts or more whose first part is "clusters".
pub extract_cluster-found_iff :
    (path : Text)
    → ((extract_cluster path).found ≡ true)
      ↔ ((2 < length (split_path path)) × (part_at 0 (split_path path) ≡ codes "clusters"))
unfolding extract_cluster
extract_cluster-found_iff path =
    ground (arith, text_eq_iff (part_at 0 (split_path path)) (codes "clusters"))

-- Where no cluster is found the path is as it was, and no cluster is named.
pub extract_cluster-absent :
    (path : Text)
    → (extract_cluster path).found ≡ false
    → ((extract_cluster path).pathname ≡ path) × ((extract_cluster path).cluster_name ≡ [])
unfolding extract_cluster
extract_cluster-absent path h = ground arith
