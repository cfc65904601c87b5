-- ===== src/Notification/Time.antt =====
-- parseIsoOffsetDateTime of api/notification-adapter-primitives.js: a date and time with an offset.
use autoform_panel.Js.Value.{Value, str}
use autoform_panel.Js.Text.{is_digit}
use autoform_panel.Stats.{glue}
use autoform_panel.Notification.Templates.{after_prefix}
use autoform_panel.Prelude.{
  ℕ, zero, suc, ◌+◌, ◌-◌, ◌*◌, ◌%◌, Char, code, String, ◌≡◌, refl, Bool, true, false, not, ◌&&◌,
  ◌||◌, Option, none, some, [], ◌∷◌, leb, ◌==◌, if◌then◌else◌,
}

-- The digits that a group of the pattern matched, their number, and the text after them.
pub record Digits : Type 0 where
  pub written : String
  pub number : ℕ
  pub after : String

abbrev before_digits : Char → Option Digits → Option Digits
before_digits c none = none
before_digits c (some d) = some (record d { written = String.◌∷◌ c d.written })

-- `\d{n}`; `number` is that of the digits before.
unfoldable pub take_digits : ℕ → ℕ → String → Option Digits
take_digits zero number s = some (record { written = ""; number = number; after = s })
take_digits (suc n) number String.[] = none
take_digits (suc n) number (String.◌∷◌ c s) =
    if is_digit (code c)
    then before_digits c (take_digits n (number * 10 + (code c - 48)) s)
    else none

infixl 5 ◌>>=◌
abbrev pub ◌>>=◌ : {A B : Type 0} → Option A → (A → Option B) → Option B
none >>= f = none
some a >>= f = f a

-- `\d{1,3}`, as many as there are; gives the text after them.
abbrev up_to_digits : ℕ → String → String
up_to_digits zero s = s
up_to_digits (suc n) String.[] = ""
up_to_digits (suc n) (String.◌∷◌ c s) =
    let rest = up_to_digits n s in if is_digit (code c) then rest else String.◌∷◌ c s

abbrev fraction : Option String → String → Option String
fraction none s = some s
fraction (some String.[]) s = none
fraction (some (String.◌∷◌ c t)) s = if is_digit (code c) then some (up_to_digits 2 t) else none

abbrev at_end : String → Bool
at_end String.[] = true
at_end _ = false

-- Hours and minutes of an offset, and the end of the text.
abbrev offset : String → Option (ℕ × ℕ)
offset s = do
  h ← take_digits 2 0 s
  t ← after_prefix ":" h.after
  m ← take_digits 2 0 t
  if at_end m.after then some (h.number, m.number) else none

-- `(Z|([+-])(\d{2}):(\d{2}))$`
abbrev zone : String → Option (ℕ × ℕ)
zone String.[] = none
zone (String.◌∷◌ c s) =
    if code c == 90
    then (if at_end s then some (0, 0) else none)
    else if code c == 43 || code c == 45
    then offset s
    else none

-- The groups of the pattern.
pub record IsoParts : Type 0 where
  pub year : Digits
  pub month : Digits
  pub day : Digits
  pub hour : Digits
  pub minute : Digits
  pub second : Digits
  pub offset_hour : ℕ
  pub offset_minute : ℕ

-- The match of the pattern, which is ISO_DATE_TIME_PATTERN with groups.
unfoldable pub iso_parts : String → Option IsoParts
iso_parts s = do
  year ← take_digits 4 0 s
  after_year ← after_prefix "-" year.after
  month ← take_digits 2 0 after_year
  after_month ← after_prefix "-" month.after
  day ← take_digits 2 0 after_month
  after_day ← after_prefix "T" day.after
  hour ← take_digits 2 0 after_day
  after_hour ← after_prefix ":" hour.after
  minute ← take_digits 2 0 after_hour
  after_minute ← after_prefix ":" minute.after
  second ← take_digits 2 0 after_minute
  after_fraction ← fraction (after_prefix "." second.after) second.after
  offset ← zone after_fraction
  some (record {
    year = year;
    month = month;
    day = day;
    hour = hour;
    minute = minute;
    second = second;
    offset_hour = offset.0;
    offset_minute = offset.1;
  })

abbrev pub is_leap : ℕ → Bool
is_leap year = year % 4 == 0 && (not (year % 100 == 0) || year % 400 == 0)

abbrev pub days_in_month : ℕ → ℕ → ℕ
days_in_month year month =
    if month == 2
    then (if is_leap year then 29 else 28)
    else if month == 4 || month == 6 || month == 9 || month == 11
    then 30
    else 31

abbrev pub in_range : IsoParts → Bool
in_range p =
    leb 1 p.year.number
    && leb 1 p.month.number
    && leb p.month.number 12
    && leb 1 p.day.number
    && leb p.day.number (days_in_month p.year.number p.month.number)
    && leb p.hour.number 23
    && leb p.minute.number 59
    && leb p.second.number 59
    && leb p.offset_hour 14
    && leb p.offset_minute 59
    && not (p.offset_hour == 14 && not (p.offset_minute == 0))

abbrev pub local_text : IsoParts → String
local_text p = glue (
    p.year.written ∷ "-" ∷ p.month.written ∷ "-" ∷ p.day.written ∷ " " ∷ p.hour.written ∷ ":"
    ∷ p.minute.written ∷ ":" ∷ p.second.written ∷ [])

abbrev checked_parts : Option IsoParts → Option String
checked_parts none = none
checked_parts (some p) = if in_range p then some (local_text p) else none

-- parseIsoOffsetDateTime, as the text of its result.
unfoldable pub parse_iso_offset_date_time : Value → Option String
unfolding iso_parts take_digits after_prefix
parse_iso_offset_date_time (str s) = checked_parts (iso_parts s)
parse_iso_offset_date_time _ = none

accepted_time :
    parse_iso_offset_date_time (str "2024-02-29T23:05:00.5+08:00") ≡ some "2024-02-29 23:05:00"
unfolding parse_iso_offset_date_time
accepted_time = refl
