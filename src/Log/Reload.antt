-- ===== src/Log/Reload.antt =====
-- The logger over the changes of its configuration file.
use bke_console_service.Prelude.{◌≡◌, refl, ap, sym, ◌∙◌, arith, true, false, List, [], ◌∷◌}
use bke_console_service.Text.{Text}
use bke_console_service.World.{Outcome, ok, err, panic}
use bke_console_service.Log.{
  LogConfig, LogState, Logger, get_logger, get_default_conf, init_log, on_config_change,
}

-- The changes of the file, in order.
abbrev pub changes : List (Outcome LogConfig) → LogState → LogState
changes [] s = s
changes (r ∷ rs) s = changes rs (on_config_change r s)

-- The configuration that was read last, if any was.
abbrev pub last_read : LogConfig → List (Outcome LogConfig) → LogConfig
last_read conf [] = conf
last_read conf (ok next ∷ rs) = last_read next rs
last_read conf (err e ∷ rs) = last_read conf rs
last_read conf (panic ∷ rs) = last_read conf rs

-- A watched logger is that of the configuration that was read last: a change that cannot be read
-- leaves it as it is.
changes-watched :
    (rs : List (Outcome LogConfig)) (conf : LogConfig)
    → changes rs (record { logger = get_logger conf; watched = true })
      ≡ record { logger = get_logger (last_read conf rs); watched = true }
unfolding on_config_change
changes-watched [] conf = refl
changes-watched (ok next ∷ rs) conf = changes-watched rs next
changes-watched (err e ∷ rs) conf = changes-watched rs conf
changes-watched (panic ∷ rs) conf = changes-watched rs conf

-- A logger that is not watched stays.
changes-unwatched :
    (rs : List (Outcome LogConfig)) (l : Logger)
    → changes rs (record { logger = l; watched = false }) ≡ record { logger = l; watched = false }
unfolding on_config_change
changes-unwatched [] l = refl
changes-unwatched (ok next ∷ rs) l = changes-unwatched rs l
changes-unwatched (err e ∷ rs) l = changes-unwatched rs l
changes-unwatched (panic ∷ rs) l = changes-unwatched rs l

-- The configuration that counts in the end.
abbrev pub settled : Outcome Text → Outcome LogConfig → List (Outcome LogConfig) → LogConfig
settled executable (ok conf) rs = last_read conf rs
settled executable (err e) rs = get_default_conf executable
settled executable panic rs = get_default_conf executable

-- Where the file was read at the start, the logger is that of the configuration that was read last,
-- and a change that cannot be read leaves it as it is; where the file was not read at the start,
-- it is the default logger, whatever is read later.
pub changes-init_log :
    (executable : Outcome Text) (first : Outcome LogConfig) (rs : List (Outcome LogConfig))
    (s : LogState)
    → init_log executable first ≡ ok s
    → (changes rs s).logger ≡ get_logger (settled executable first rs)
unfolding init_log
changes-init_log executable (ok conf) rs s e =
    let same : record { logger = get_logger conf; watched = true } ≡ s = ground arith in
    ap (λ t. (changes rs t).logger) (sym same)
    ∙ ap (λ (t : LogState). t.logger) (changes-watched rs conf)
changes-init_log executable (err x) rs s e =
    let l = get_logger (get_default_conf executable) in
    let same : record { logger = l; watched = false } ≡ s = ground arith in
    ap (λ t. (changes rs t).logger) (sym same)
    ∙ ap (λ (t : LogState). t.logger) (changes-unwatched rs l)
changes-init_log executable panic rs s e = cc
