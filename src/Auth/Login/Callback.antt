-- ===== src/Auth/Login/Callback.antt =====
-- callbackHandler of pkg/auth/handler.go: its guards on the query and the cookie.
use bke_console_service.Prelude.{
  ◌≡◌, ◌≢◌, refl, ap, ◌∙◌, ◌⊎◌, inl, inr, List, [], ◌∷◌, ◌++◌, Option, none, some, arith,
  append_assoc,
}
use bke_console_service.Text.{Text, codes}
use bke_console_service.Text.Equality.{text_eq_iff, text_eq-cases}
use bke_console_service.World.{
  set_header, write_body, redirect, write_error, ok, err, get?, get_bytes, World, Env, Request,
  Action, Dict,
}
use bke_console_service.World.Steps.{attempt, ◌>>=◌}
use bke_console_service.Http.{escape_string, render_html}
use bke_console_service.Auth.Tokens.{exchange_code_for_token}
use bke_console_service.Auth.Login.{
  console_root_page, cookie_name_login_state, generate_error_resp_text, parse_callback_query,
  check_login_state, after_token, after_state, after_query, callback_of, callback_handler,
}

abbrev error_page : Text → Text → Text
error_page code desc = render_html (escape_string code) (escape_string desc)

error_page-cases :
    (code desc : Text)
    → ((code ≡ []) × (desc ≡ []) × (generate_error_resp_text code desc ≡ none))
      ⊎ ((page : Text) × (generate_error_resp_text code desc ≡ some page))
unfolding generate_error_resp_text
error_page-cases code desc = elim (text_eq-cases code []) [
  | inl c ↦ elim (text_eq-cases desc []) [
    | inl d ↦ inl (c, d, rw (c, d) refl)
    | inr d ↦ inr (error_page code desc, rw (c, d) refl)
  ]
  | inr c ↦ inr (error_page code desc, rw c refl)
]

parse-cases :
    (query : Dict Text)
    → ((code state : Text) × (get_bytes (codes "code") query ≡ code)
        × (code ≢ [])
        × (get_bytes (codes "state") query ≡ state)
        × (state ≢ [])
        × (parse_callback_query query ≡ ok (code, state)))
      ⊎ ((e : Text) × (parse_callback_query query ≡ err e))
unfolding parse_callback_query
parse-cases query = elim (text_eq-cases (get_bytes (codes "code") query) []) [
  | inl c ↦ inr (codes "missing query param: code", rw c refl)
  | inr c ↦ elim (text_eq-cases (get_bytes (codes "state") query) []) [
    | inl s ↦ inr (codes "missing query param: state", rw (c, s) refl)
    | inr s ↦ inl (
      _,
      _,
      refl,
      ground (arith, text_eq_iff (get_bytes (codes "code") query) []),
      refl,
      ground (arith, text_eq_iff (get_bytes (codes "state") query) []),
      rw (c, s) refl,
    )
  ]
]

check-cases :
    (cookie : Option Text) (state : Text)
    → ((cookie ≡ some state) × (check_login_state cookie state ≡ ok tt))
      ⊎ ((e : Text) × (check_login_state cookie state ≡ err e))
unfolding check_login_state
check-cases none state = inr (codes "no login state in cookie", refl)
check-cases (some c) state = elim (text_eq-cases c state) [
  | inl same ↦ inl (ap some same, ground (arith, text_eq_iff c state))
  | inr other ↦ inr (codes "login state in cookie and query not matching", rw other refl)
]

-- The query has no error, a code and a state, and the state is that of the cookie.
pub record IsAccepted (req : Request) (code : Text) : Type 0 where
  pub error_code : get_bytes (codes "error") req.query ≡ []
  pub error_desc : get_bytes (codes "error_description") req.query ≡ []
  pub coded : get_bytes (codes "code") req.query ≡ code
  pub code_full : code ≢ []
  pub state : Text
  pub stated : get_bytes (codes "state") req.query ≡ state
  pub state_full : state ≢ []
  pub state_cookie : get? cookie_name_login_state req.cookies ≡ some state

module _ {S : Type 0} (env : Env S) (req : Request) (w : World S) where
  -- The callback asked for the tokens of a code that the request is accepted with.
  abbrev pub AsksServer : Type 0
  AsksServer =
      (code : Text) × IsAccepted req code
      × (callback_handler env req w
          ≡ (attempt (exchange_code_for_token env code) >>= after_token env) w)

  -- The callback did no more than to answer.
  abbrev pub OnlyAnswers : Type 0
  OnlyAnswers =
      (actions : List Action) × (callback_handler env req w
        ≡ (ok tt, record w { reply = w.reply ++ actions }))

  page_answer :
      (page : Text)
      → generate_error_resp_text
          (get_bytes (codes "error") req.query)
          (get_bytes (codes "error_description") req.query)
        ≡ some page
      → OnlyAnswers
  unfolding callback_handler callback_of
  page_answer page q = (
    set_header (codes "Content-Type") (codes "text/html") ∷ write_body page ∷ [],
    rw q (
        ap (λ r. (ok tt, record w { reply = r }))
          (append_assoc w.reply (set_header (codes "Content-Type") (codes "text/html") ∷ [])
            (write_body page ∷ []))),
  )

  -- Where the query names no error, the callback goes by the code and the two states.
  query_answer :
      generate_error_resp_text
          (get_bytes (codes "error") req.query)
          (get_bytes (codes "error_description") req.query)
        ≡ none
      → callback_handler env req w
        ≡ after_query env
            (get? cookie_name_login_state req.cookies)
            (parse_callback_query req.query)
            w
  unfolding callback_handler callback_of
  query_answer q = rw q refl

  -- The callback asks the OAuth server for tokens only for a request without an error, with a
  -- non-empty code and a non-empty state that equals the state cookie; to any other request it
  -- answers, and changes nothing else.
  pub callback_handler-guarded : AsksServer ⊎ OnlyAnswers
  unfolding after_query after_state
  callback_handler-guarded =
      elim (error_page-cases (get_bytes (codes "error") req.query)
        (get_bytes (codes "error_description") req.query)) [
          | inr (page, q) ↦ inr (page_answer page q)
          | inl (no_code, no_desc, q) ↦ elim (parse-cases req.query) [
            | inr (e, bad) ↦ inr (write_error 401 e ∷ [], query_answer q ∙ rw bad refl)
            | inl (code, state, coded, code_full, stated, state_full, good) ↦
                elim (check-cases (get? cookie_name_login_state req.cookies) state) [
                  | inr (e, bad) ↦
                      inr (
                        redirect console_root_page 303 ∷ [],
                        query_answer q ∙ rw good (rw bad refl),
                      )
                  | inl (cookie, fine) ↦ inl (
                    code,
                    record {
                      error_code = no_code;
                      error_desc = no_desc;
                      coded = coded;
                      code_full = code_full;
                      state = state;
                      stated = stated;
                      state_full = state_full;
                      state_cookie = cookie;
                    },
                    query_answer q ∙ rw good (rw fine refl),
                  )
                ]
          ]
        ]
