-- ===== src/Cron/Field.antt =====
-- cron/parser.cpp, lines 19 to 195: one field of a cron expression. An `int` is a number here; the
-- signed overflow of `i += step` is undefined behaviour, and `undefined` marks it.
pub mod Range
pub mod Sorted
pub mod Bounds
pub mod RoundTrip
use mylobsterpp.Prelude.{
  ℤ, pos, negsuc, int_max, ℕ, zero, suc, ◌+◌, ◌-◌, ◌*◌, ◌^◌, Bool, true, false, not, ◌&&◌, ◌||◌,
  Option, none, some, List, [], ◌∷◌, ◌++◌, map, ltb, leb, ◌==◌, if◌then◌else◌, length, sort_by,
  Text, codes, text_eq, break_byte, to_lower, Result, ok, err, undefined, fail, ◌>>=◌,
  invalid_argument,
}

unfoldable pub is_digit : ℕ → Bool
is_digit c = leb b'0' c && leb c b'9'

-- The digits of a text that holds nothing else.
unfoldable pub parse_digits : (acc : ℕ) → Text → Option ℕ
unfolding is_digit
parse_digits acc [] = some acc
parse_digits acc (c ∷ s) = if is_digit c then parse_digits (acc * 10 + (c - b'0')) s else none

abbrev unsigned : Text → Option ℕ
unsigned [] = none
unsigned (c ∷ s) = parse_digits 0 (c ∷ s)

abbrev as_int : Bool → ℕ → Option ℤ
as_int false n = if leb n int_max then some (pos n) else none
as_int true n =
    if n == 0 then some (pos 0) else if leb n (int_max + 1) then some (negsuc (n - 1)) else none

-- `std::from_chars` over the whole text: `none` if it fails or leaves a part of the text.
unfoldable pub from_chars : Text → Option ℤ
unfolding parse_digits
from_chars [] = none
from_chars (c ∷ s) =
    if c == b'-'
    then elim (unsigned s) [ none ↦ none | some n ↦ as_int true n ]
    else elim (unsigned (c ∷ s)) [ none ↦ none | some n ↦ as_int false n ]

abbrev pub Names : Type 0
Names = List (Text × ℕ)

abbrev pub month_names : Names
month_names =
    (codes "jan", 1)
    ∷ (codes "feb", 2)
    ∷ (codes "mar", 3)
    ∷ (codes "apr", 4)
    ∷ (codes "may", 5)
    ∷ (codes "jun", 6)
    ∷ (codes "jul", 7)
    ∷ (codes "aug", 8)
    ∷ (codes "sep", 9)
    ∷ (codes "oct", 10)
    ∷ (codes "nov", 11)
    ∷ (codes "dec", 12)
    ∷ []

abbrev pub day_names : Names
day_names =
    (codes "sun", 0)
    ∷ (codes "mon", 1)
    ∷ (codes "tue", 2)
    ∷ (codes "wed", 3)
    ∷ (codes "thu", 4)
    ∷ (codes "fri", 5)
    ∷ (codes "sat", 6)
    ∷ []

unfoldable pub find_name : Text → Names → Option ℕ
find_name token [] = none
find_name token ((name, value) ∷ names) =
    if text_eq name token then some value else find_name token names

-- `names` is `[]` for a null pointer.
unfoldable pub named_value : Text → Names → Option ℕ
unfolding find_name to_lower
named_value token names =
    if leb 3 (length token) then find_name (map to_lower token) names else none

unfoldable pub resolve_value : Text → (min_val max_val : ℕ) → Names → Result ℕ
unfolding named_value from_chars
resolve_value token lo hi names = elim (named_value token names) [
  | some value ↦ ok value
  | none ↦ elim (from_chars token) [
    | none ↦ fail invalid_argument "Invalid cron value"
    | some (negsuc _) ↦ fail invalid_argument "Cron value out of range"
    | some (pos value) ↦
        if ltb value lo || ltb hi value
        then fail invalid_argument "Cron value out of range"
        else ok value
  ]
]

-- `for (i = start; i <= end; i += step) values.push_back(i);`, with fuel for the rounds.
unfoldable pub range_loop : (fuel i end step : ℕ) → Result (List ℕ)
range_loop zero i end step = ok []
range_loop (suc fuel) i end step =
    let rest = range_loop fuel (i + step) end step in
    if leb i end
    then (if ltb int_max (i + step) then undefined else (rest >>= λ values. ok (i ∷ values)))
    else ok []

unfoldable pub range_values : (start end step : ℕ) → Result (List ℕ)
unfolding range_loop
range_values start end step = range_loop (end + 1 - start) start end step

-- The part before the slash, and the step.
unfoldable pub split_step : Text → Result (Text × ℕ)
unfolding from_chars
split_step elem = elim (break_byte b'/' elem) [
  | none ↦ ok (elem, 1)
  | some (range_part, step_part) ↦ elim (from_chars step_part) [
    | some (pos (suc s)) ↦ ok (range_part, suc s)
    | _ ↦ fail invalid_argument "Invalid step value"
  ]
]

unfoldable pub parse_range :
    (start_str end_str : Text) → (step min_val max_val : ℕ) → Names → Result (List ℕ)
parse_range start_str end_str step lo hi names = do
  start ← resolve_value start_str lo hi names
  end ← resolve_value end_str lo hi names
  if ltb end start then fail invalid_argument "Invalid range" else range_values start end step

unfoldable pub parse_single : Text → (step min_val max_val : ℕ) → Names → Result (List ℕ)
parse_single range_part step lo hi names = do
  value ← resolve_value range_part lo hi names
  if ltb 1 step then range_values value hi step else ok (value ∷ [])

unfoldable pub parse_unstepped : Text → (step min_val max_val : ℕ) → Names → Result (List ℕ)
unfolding parse_range parse_single
parse_unstepped range_part step lo hi names =
    if text_eq range_part (codes "*")
    then range_values lo hi step
    else elim (break_byte b'-' range_part) [
      | some (start_str, end_str) ↦ parse_range start_str end_str step lo hi names
      | none ↦ parse_single range_part step lo hi names
    ]

unfoldable pub parse_element : Text → (min_val max_val : ℕ) → Names → Result (List ℕ)
unfolding split_step parse_unstepped
parse_element elem lo hi names = do
  (range_part, step) ← split_step elem
  parse_unstepped range_part step lo hi names

-- The parts between commas; nothing follows a comma at the end.
unfoldable pub pieces_from : (part field : Text) → List Text
pieces_from part [] = []
pieces_from part (c ∷ []) = if c == b',' then part ∷ [] else (part ++ c ∷ []) ∷ []
pieces_from part (c ∷ d ∷ field) =
    let closed = pieces_from [] (d ∷ field) in
    let longer = pieces_from (part ++ c ∷ []) (d ∷ field) in
    if c == b',' then part ∷ closed else longer

unfoldable pub parse_elements : List Text → (min_val max_val : ℕ) → Names → Result (List ℕ)
parse_elements [] lo hi names = ok []
parse_elements (part ∷ parts) lo hi names = do
  values ← parse_element part lo hi names
  later ← parse_elements parts lo hi names
  ok (values ++ later)

-- `std::unique` and `erase`: of equal neighbours the first is kept.
unfoldable pub unique : List ℕ → List ℕ
unique [] = []
unique (x ∷ []) = x ∷ []
unique (x ∷ y ∷ xs) = let rest = unique (y ∷ xs) in if x == y then rest else x ∷ rest

unfoldable pub parse_field : Text → (min_val max_val : ℕ) → Names → Result (List ℕ)
unfolding pieces_from parse_elements unique
parse_field field lo hi names = do
  result ← parse_elements (pieces_from [] field) lo hi names
  ok (unique (sort_by ltb result))
