-- ===== src/IpContext/Schema.antt =====
-- frontend/state.js, `contextObject` to `contextCount`: the checks that the parts of a context share. The
-- objects and lists are those that `contextJSON` makes, so that they have plain fields only.
use revealnetworktrouble.Prelude.{
  decimal_from, ℕ, ◌+◌, ◌-◌, ◌*◌, ◌/◌, ◌%◌, Bool, true, false, not, ◌&&◌, ◌||◌, Option, none, some,
  List, [], ◌∷◌, ◌++◌, String, ltb, leb, ◌==◌, if◌then◌else◌, ◌>>=◌, ◌>>◌, guard, length, is_nil,
  get_or, take, drop, all, any, keep, Text, codes, text_eq, split, is_digit, decimal,
}
use revealnetworktrouble.Requests.ApiError.{is_high, is_low}
use revealnetworktrouble.IpContext.Json.{
  Value, Items, Fields, null, num, str, arr, obj, nil, cons, end, field, has_key,
}

abbrev pub words : String → List Text
unfolding split
words s = split 32 (codes s)

-- `.split(' ').filter(Boolean)`
abbrev pub key_words : String → List Text
unfolding words
key_words s = keep (λ t. not (is_nil t)) (words s)

-- `members.split(' ').includes(value)`
abbrev pub is_member : Text → String → Bool
is_member t s = any (text_eq t) (words s)

abbrev pub is_null : Value → Bool
is_null null = true
is_null _ = false

abbrev pub keys_allowed : List Text → Fields → Bool
keys_allowed ks end = true
keys_allowed ks (field k v fs) = any (text_eq k) ks && not (is_null v) && keys_allowed ks fs

abbrev pub as_object : Value → Option Fields
as_object (obj fs) = some fs
as_object _ = none

unfoldable pub context_object : String → String → Value → Option Fields
unfolding key_words
context_object required optional v = do
  fs ← as_object v
  guard (keys_allowed (key_words required ++ key_words optional) fs)
  guard (all (λ k. has_key k fs) (key_words required))
  some fs

abbrev pub items_list : Items → List Value
items_list nil = []
items_list (cons v vs) = v ∷ items_list vs

abbrev pub as_list : Value → Option (List Value)
as_list (arr vs) = some (items_list vs)
as_list _ = none

-- `contextArray`
unfoldable pub context_array : ℕ → Value → Option (List Value)
context_array limit v = do vs ← as_list v; guard (leb (length vs) limit); some vs

abbrev pub as_number : Value → Option ℕ
as_number (num n) = some n
as_number _ = none

-- `contextInt`
unfoldable pub context_int : ℕ → Value → Option ℕ
context_int limit v = do n ← as_number v; guard (leb n limit); some n

abbrev pub as_text : Value → Option Text
as_text (str t) = some t
as_text _ = none

abbrev pub find_field : Text → Fields → Option Value
find_field k end = none
find_field k (field j v fs) = let later = find_field k fs in if text_eq k j then some v else later

abbrev pub at : String → Fields → Option Value
at k fs = find_field (codes k) fs

abbrev pub text_at : String → Fields → Option Text
text_at k fs = at k fs >>= as_text

abbrev pub has : String → Fields → Bool
has k fs = has_key (codes k) fs

-- A field whose text is one of these words.
abbrev pub word_at : String → String → Fields → Option Text
word_at k members fs = do t ← text_at k fs; guard (is_member t members); some t

-- The two digits at a place, and the four of a year.
abbrev pub digits_at : ℕ → ℕ → Text → Option Text
digits_at from count t =
    let ds = take count (drop from t) in
    if length ds == count && all is_digit ds then some ds else none

abbrev pub is_leap : ℕ → Bool
is_leap y = y % 4 == 0 && (not (y % 100 == 0) || y % 400 == 0)

abbrev pub month_days : Bool → List ℕ
month_days leap =
    31 ∷ (if leap then 29 else 28) ∷ 31 ∷ 30 ∷ 31 ∷ 30 ∷ 31 ∷ 31 ∷ 30 ∷ 31 ∷ 30 ∷ 31 ∷ []

abbrev pub sum : List ℕ → ℕ
sum [] = 0
sum (n ∷ ns) = n + sum ns

-- The days of the years before `y`, from the year 0 on.
abbrev pub days_before : ℕ → ℕ
days_before y = y * 365 + (y + 3) / 4 + (y + 399) / 400 - (y + 99) / 100

-- The time that a date and a time of the day stand for, in milliseconds from the year 0 on; `Date.parse` counts
-- from 1970, and the code compares and subtracts only. A date that does not exist is not written back alike.
abbrev pub time_of : ℕ → ℕ → ℕ → ℕ → ℕ → ℕ → ℕ → Option ℕ
time_of year month day hour minute second millis =
    let lengths = month_days (is_leap year) in
    let days = days_before year + sum (take (month - 1) lengths) + (day - 1) in
    if leb 1 month
      && leb month 12
      && leb 1 day
      && leb day (get_or lengths (month - 1) 0)
      && leb hour 23
      && leb minute 59
      && leb second 59
    then some ((((days * 24 + hour) * 60 + minute) * 60 + second) * 1000 + millis)
    else none

abbrev pub has_shape : Text → Bool
has_shape t =
    length t == 24
    && get_or t 4 0 == b'-'
    && get_or t 7 0 == b'-'
    && get_or t 10 0 == b'T'
    && get_or t 13 0 == b':'
    && get_or t 16 0 == b':'
    && get_or t 19 0 == b'.'
    && get_or t 23 0 == b'Z'

-- `contextStamp`
unfoldable pub context_stamp : Text → Option ℕ
unfolding decimal_from
context_stamp t = do
  guard (has_shape t && not (text_eq (take 4 t) (codes "0000")))
  year ← digits_at 0 4 t
  month ← digits_at 5 2 t
  day ← digits_at 8 2 t
  hour ← digits_at 11 2 t
  minute ← digits_at 14 2 t
  second ← digits_at 17 2 t
  millis ← digits_at 20 3 t
  time_of (decimal year) (decimal month) (decimal day) (decimal hour) (decimal minute)
      (decimal second) (decimal millis)

-- `timed`: the source of a part, and when it was made.
unfoldable pub timed : String → String → ℕ → Fields → Option (Unit {0})
unfolding context_stamp
timed source key fetched fs = do
  named ← text_at "source" fs
  guard (text_eq named (codes source))
  stamp ← text_at key fs
  time ← context_stamp stamp
  guard (leb time fetched)

-- `contextCount`
unfoldable pub context_count : Text → ℕ → ℕ → ℕ → Bool
context_count status omitted count limit =
    let complete = leb 1 count && leb count limit && omitted == 0 in
    let partial = count == limit && ltb 0 omitted in
    if text_eq status (codes "ok")
    then complete
    else if text_eq status (codes "limited")
    then partial
    else count == 0 && omitted == 0

-- The bytes of a text in UTF-8; each half of a pair has two of the four.
abbrev pub utf8_size : ℕ → ℕ
utf8_size u =
    if ltb u 0x80 then 1 else if ltb u 0x800 then 2 else if is_high u || is_low u then 2 else 3

abbrev pub utf8_length : Text → ℕ
utf8_length [] = 0
utf8_length (u ∷ t) = utf8_size u + utf8_length t
