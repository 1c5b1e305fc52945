-- ===== src/Fix/Message.antt =====
-- exchangesim/fix/message.py: messages, their framing, encoding and decoding. Values are latin-1
-- texts, a character its code.
pub mod Fields
use exchange_sim.Prelude.{
  ℕ, suc, ◌+◌, ◌%◌, List, [], ◌∷◌, ◌++◌, Bool, true, false, ◌||◌, Option, none, some, ◌==◌, ltb,
  if◌then◌else◌, length, is_empty as is_empty_list,
}
use exchange_sim.Prelude.Int.{ℤ}
use exchange_sim.Ids.{decimal, padded}
use exchange_sim.Bytes.{total, parse_int}
use mathlib.Core.Option

abbrev pub Field : Type 0
Field = ℕ × List ℕ

abbrev pub Message : Type 0
Message = List Field

abbrev pub soh : ℕ
soh = 1

abbrev pub equals : ℕ
equals = 61

-- What is wrong with bytes that cannot be a message, in place of the exception's text.
pub data MalformedMessage : Type 0 where
  no_begin_string no_body_length body_length_not_integer body_length_out_of_range : MalformedMessage
  check_sum_misplaced no_final_delimiter no_check_sum check_sum_not_numeric : MalformedMessage
  check_sum_mismatch field_without_equals tag_not_numeric tag_not_positive : MalformedMessage
  begin_string_not_first no_msg_type : MalformedMessage
  ends_mid_field wrong_start length_too_short frame_too_short length_differs : MalformedMessage

-- A result, or one of the two exceptions.
pub data Parsed {ℓ} (A : Type ℓ) : Type ℓ where
  parsed : A → Parsed A
  incomplete : Parsed A
  malformed : MalformedMessage → Parsed A

-- Access.

unfoldable pub get : ℕ → Message → Option (List ℕ)
get tag [] = none
get tag ((t, value) ∷ fields) = let later = get tag fields in if t == tag then some value else later

unfoldable pub get_all : ℕ → Message → List (List ℕ)
get_all tag [] = []
get_all tag ((t, value) ∷ fields) =
    let later = get_all tag fields in if t == tag then value ∷ later else later

unfoldable pub int_of : Option ℤ → Option (List ℕ) → Option ℤ
int_of default none = default
int_of default (some value) = elim (parse_int value) [ none ↦ default | some n ↦ some n ]

-- The integer of a field, or the default if it is absent or not an integer.
unfoldable pub get_int : ℕ → Option ℤ → Message → Option ℤ
get_int tag default m = int_of default (get tag m)

unfoldable pub has : ℕ → Message → Bool
has tag [] = false
has tag ((t, value) ∷ fields) = let later = has tag fields in if t == tag then true else later

-- A field that is there with no value.
unfoldable pub is_empty : ℕ → Message → Bool
is_empty tag m = elim (get tag m) [ none ↦ false | some value ↦ is_empty_list value ]

unfoldable pub tags : Message → List ℕ
tags [] = []
tags ((t, value) ∷ fields) = t ∷ tags fields

-- Mutation.

-- The first occurrence of a tag is replaced in place, a new tag goes last.
unfoldable pub replace : ℕ → List ℕ → Message → Message
replace tag text [] = (tag, text) ∷ []
replace tag text ((t, value) ∷ fields) =
    let later = replace tag text fields in
    if t == tag then (tag, text) ∷ fields else (t, value) ∷ later

unfoldable pub set : ℕ → Option (List ℕ) → Message → Message
set tag none m = m
set tag (some text) m = replace tag text m

unfoldable pub set_if : ℕ → Option (List ℕ) → Message → Message
set_if tag none m = m
set_if tag (some text) m = set tag (some text) m

unfoldable pub append : ℕ → List ℕ → Message → Message
append tag text m = m ++ (tag, text) ∷ []

unfoldable pub remove : ℕ → Message → Message
remove tag [] = []
remove tag ((t, value) ∷ fields) =
    let later = remove tag fields in if t == tag then later else (t, value) ∷ later

-- `Message.create(msg_type)`
unfoldable pub create : List ℕ → Message
create msg_type = set 35 (some msg_type) []

-- Order of transmission.

unfoldable pub header_order : List ℕ
header_order = 35 ∷ 34 ∷ 49 ∷ 50 ∷ 52 ∷ 56 ∷ 57 ∷ 43 ∷ 97 ∷ 122 ∷ 1128 ∷ []

unfoldable pub rank_in : ℕ → List ℕ → Option ℕ
rank_in tag [] = none
rank_in tag (t ∷ ts) =
    let later = rank_in tag ts in if t == tag then some 0 else Option.map suc later

unfoldable pub header_rank : ℕ → Option ℕ
header_rank tag = rank_in tag header_order

unfoldable pub is_structural : ℕ → Bool
is_structural tag = tag == 8 || tag == 9 || tag == 10

unfoldable pub rank_or_zero : Option ℕ → ℕ
rank_or_zero none = 0
rank_or_zero (some rank) = rank

-- A stable sort: a field goes before those of a higher rank or the same, which came later.
unfoldable pub insert_by_rank : Field → Message → Message
insert_by_rank (tag, value) [] = (tag, value) ∷ []
insert_by_rank (tag, value) ((t, v) ∷ fields) =
    let later = insert_by_rank (tag, value) fields in
    if ltb (rank_or_zero (header_rank t)) (rank_or_zero (header_rank tag))
    then (t, v) ∷ later
    else (tag, value) ∷ (t, v) ∷ fields

unfoldable pub sort_by_rank : Message → Message
sort_by_rank [] = []
sort_by_rank (field ∷ fields) = insert_by_rank field (sort_by_rank fields)

unfoldable pub header_fields : Message → Message
header_fields [] = []
header_fields ((tag, value) ∷ fields) =
    let later = header_fields fields in
    if is_structural tag
    then later
    else elim (header_rank tag) [ none ↦ later | some rank ↦ (tag, value) ∷ later ]

unfoldable pub body_fields : Message → Message
body_fields [] = []
body_fields ((tag, value) ∷ fields) =
    let later = body_fields fields in
    if is_structural tag
    then later
    else elim (header_rank tag) [ none ↦ (tag, value) ∷ later | some rank ↦ later ]

unfoldable pub sort_fields : Message → Message
sort_fields m = sort_by_rank (header_fields m) ++ body_fields m

-- Encoding.

unfoldable pub field_text : Field → List ℕ
field_text (tag, value) = decimal tag ++ equals ∷ value ++ soh ∷ []

unfoldable pub fields_text : Message → List ℕ
fields_text [] = []
fields_text (field ∷ fields) = field_text field ++ fields_text fields

-- `8=<begin string>|9=<length>|` and the body.
unfoldable pub head_text : Message → List ℕ → List ℕ
head_text m begin_string =
    let body = fields_text (sort_fields m) in
    56 ∷ equals ∷ begin_string ++ soh ∷ 57 ∷ equals ∷ decimal (length body) ++ soh ∷ body

unfoldable pub encode : Message → List ℕ → List ℕ
encode m begin_string =
    let head = head_text m begin_string in
    head ++ 49 ∷ 48 ∷ equals ∷ padded 3 (total head % 256) ++ soh ∷ []
