-- ===== src/Http/Escape.antt =====
-- What html.EscapeString leaves of a text.
use bke_console_service.Prelude.{ℕ, ◌≢◌, List, [], ◌∷◌, ◌++◌, arith, All}
use bke_console_service.Text.{Text}
use bke_console_service.Http.{escape_char, escape_string}

-- A character that ends no text and opens no tag or attribute in HTML.
abbrev pub IsInert : ℕ → Type 0
IsInert c = (c ≢ b'<') × (c ≢ b'>') × (c ≢ 34) × (c ≢ 39)

All-append {ℓ} :
    {A : Type ℓ} (P : A → Type 0) (xs ys : List A) → All P xs → All P ys → All P (xs ++ ys)
All-append P [] ys h k = k
All-append P (x ∷ xs) ys (p, h) k = (p, All-append P xs ys h k)

escape_char-IsInert : (c : ℕ) → All IsInert (escape_char c)
unfolding escape_char
escape_char-IsInert c = ground arith

-- An escaped text holds no angle bracket and no quote.
pub escape_string-IsInert : (s : Text) → All IsInert (escape_string s)
unfolding escape_string
escape_string-IsInert [] = tt
escape_string-IsInert (c ∷ s) =
    All-append IsInert (escape_char c) (escape_string s) (escape_char-IsInert c)
      (escape_string-IsInert s)
