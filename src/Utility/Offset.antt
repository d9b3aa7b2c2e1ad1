-- ===== src/Utility/Offset.antt =====
-- Reading the answer of getCurrentTimeOffset back.
use bke_console_service.Prelude.{
  ℕ, zero, suc, ◌+◌, ◌-◌, ◌*◌, ◌/◌, ◌%◌, ◌<◌, ◌≡◌, refl, ap, [], ◌∷◌, ◌++◌, ◌&&◌, Option, none,
  some, ◌==◌, if◌then◌else◌, Bool, true, false, arith, length,
}
use bke_console_service.Prelude.Int.{ℤ, pos, negsuc}
use bke_console_service.Text.{Text, codes}
use bke_console_service.Text.Decimal.{
  digits, format_int, parse_int, FitsInt64, parse_int-format_int,
}
use bke_console_service.World.{Dict, get?, Time, unix}
use bke_console_service.Utility.{pad2, sign_of, magnitude, offset_string, get_current_time_offset}

-- Both digits of a number below 100.
pad2-digits : (n : ℕ) → n < 100 → pad2 n ≡ (n / 10 + 48) ∷ (n % 10 + 48) ∷ []
unfolding pad2
pad2-digits zero h = refl
pad2-digits (suc m) h = unfold digits in ground arith

abbrev is_negative : ℤ → Bool
is_negative (pos n) = false
is_negative (negsuc n) = true

abbrev number : ℕ → ℕ → ℕ
number a b = (a - 48) * 10 + (b - 48)

abbrev signed : ℕ → ℕ → Option (Bool × ℕ)
signed sign minutes =
    if sign == b'+'
    then some (false, minutes)
    else if sign == b'-'
    then some (true, minutes)
    else none

-- A reader of "UTC+hh:mm" and "UTC-hh:mm": the sign, and the magnitude in minutes.
abbrev pub read_offset : Text → Option (Bool × ℕ)
read_offset (u ∷ t ∷ c ∷ sign ∷ a ∷ b ∷ colon ∷ d ∷ e ∷ []) =
    if u == b'U' && t == b'T' && c == b'C' && colon == b':'
    then signed sign (number a b * 60 + number d e)
    else none
read_offset s = none

offset_string-digits :
    (offset : ℤ)
    → magnitude offset < 360_000
    → let hours = magnitude offset / 3600 in
      let minutes = magnitude offset % 3600 / 60 in
      offset_string offset
      ≡ codes "UTC"
        ++ (sign_of offset
            ++ ((hours / 10 + 48)
                ∷ (hours % 10 + 48)
                ∷ b':'
                ∷ (minutes / 10 + 48)
                ∷ (minutes % 10 + 48)
                ∷ []))
unfolding offset_string
offset_string-digits offset h =
    rw (pad2-digits (magnitude offset / 3600) (omega arith))
      (rw (pad2-digits (magnitude offset % 3600 / 60) (omega arith)) refl)

number-digits :
    (n : ℕ)
    → n < 360_000
    → let hours = n / 3600 in
      let minutes = n % 3600 / 60 in
      number (hours / 10 + 48) (hours % 10 + 48) * 60
        + number (minutes / 10 + 48) (minutes % 10 + 48)
      ≡ n / 60
number-digits n h = omega arith

offset_string-read :
    (offset : ℤ)
    → magnitude offset < 360_000
    → (length (offset_string offset) ≡ 9)
      × (read_offset (offset_string offset) ≡ some (is_negative offset, magnitude offset / 60))
unfolding sign_of magnitude
offset_string-read (pos n) h =
    rw (offset_string-digits (pos n) h) (refl, ap (λ m. some (false, m)) (number-digits n h))
offset_string-read (negsuc n) h =
    rw (offset_string-digits (negsuc n) h)
      (refl, ap (λ m. some (true, m)) (number-digits (suc n) h))

-- For an offset of less than a hundred hours and Unix seconds of 64 bits the answer is "success",
-- its text for the offset has nine bytes and is read back as the sign and the whole minutes of the
-- offset, and its text for the server's time is read back as the Unix seconds of the clock.
pub get_current_time_offset-reads :
    (t : Time) (offset : ℤ)
    → magnitude offset < 360_000
    → FitsInt64 (unix t)
    → (m : Dict Text) × (text : Text) × (stamp : Text) × (get_current_time_offset t offset
        ≡ record {
          status = 200;
          body = record { code = pos 200; msg = codes "success"; contents = some m };
        })
      × (get? (codes "offset") m ≡ some text)
      × (length text ≡ 9)
      × (read_offset text ≡ some (is_negative offset, magnitude offset / 60))
      × (get? (codes "currentServerTime") m ≡ some stamp)
      × (parse_int stamp ≡ some (unix t))
unfolding get_current_time_offset
get_current_time_offset-reads t offset h fits =
    let (nine, read) = offset_string-read offset h in
    (
      (codes "offset", offset_string offset)
          ∷ (codes "currentServerTime", format_int (unix t))
          ∷ [],
      offset_string offset,
      format_int (unix t),
      refl,
      unfold get? in refl,
      nine,
      read,
      unfold get? in refl,
      parse_int-format_int (unix t) fits,
    )
