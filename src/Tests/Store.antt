-- ===== src/Tests/Store.antt =====
-- core/ingestion/snapshot_store.py: a store of two months, with numbers written in strokes.
use Prim.Native.Char.{Char, code}
use Prim.Native.String.{String}
use package.text.Mathlib.Text.{◌==◌ as str_eq}
use package.text.Mathlib.TextEquality.{eq_iff}
use compute_quant_lab.Prelude.{
  ℕ, zero, suc, ◌/◌, ◌≡◌, refl, sym, ◌∙◌, ap, inl, inr, Bool-cases, Bool, true, false, Option, some,
  none, List, [], ◌∷◌, All, map, eqb, if◌then◌else◌,
}
use compute_quant_lab.Prelude.Int.{ℤ, pos, negsuc}
use compute_quant_lab.Prelude.Result.{ok}
use compute_quant_lab.Ingestion.Protocols.{aware, Snapshot, dedup_key}
use compute_quant_lab.Utils.Coerce
use compute_quant_lab.Utils.Coerce.{Value, Conversions, lenient_float, lenient_int}
use compute_quant_lab.Ingestion.SnapshotStore.{
  Formats, fields, encode, decode, Directory, append, append_each, load,
}
use compute_quant_lab.Ingestion.SnapshotStore.Rows.{IsFormats, IsStorable, decode-encode}
use compute_quant_lab.Ingestion.SnapshotStore.Idempotence.{Appended, append_lem, append-idempotent}
use compute_quant_lab.Tests.Ingestion.{offer}

abbrev strokes : ℕ → String
strokes zero = String.[]
strokes (suc n) = String.◌∷◌ "1" (strokes n)

abbrev count : String → ℕ
count String.[] = 0
count (String.◌∷◌ c s) = suc (count s)

count-strokes : (n : ℕ) → count (strokes n) ≡ n
count-strokes zero = refl
count-strokes (suc n) = ap suc (count-strokes n)

abbrev show : ℤ → String
show (pos n) = String.◌∷◌ "p" (strokes n)
show (negsuc n) = String.◌∷◌ "n" (strokes n)

abbrev number : String → ℤ
number String.[] = pos 0
number (String.◌∷◌ c s) = if eqb (code c) b'p' then pos (count s) else negsuc (count s)

number-show : (n : ℤ) → number (show n) ≡ n
number-show (pos n) = ap pos (count-strokes n)
number-show (negsuc n) = ap negsuc (count-strokes n)

abbrev shown : Value ℤ → String
shown (Coerce.text s) = s
shown v = ""

abbrev convert : Conversions ℤ
convert = record {
  of_int = λ i. i;
  of_text = λ s. some (some (number s));
  truncate = λ i. i;
  show = shown;
}

abbrev formats : Formats ℤ
formats = record {
  isoformat = strokes;
  fromisoformat = λ s. ok (aware (count s) (pos 0));
  show_float = show;
  parse_float = λ s. ok (number s);
  show_int = show;
  parse_int = λ s. ok (number s);
  month_of = λ t. t / 10;
}

abbrev is_empty_text : String → Bool
is_empty_text String.[] = true
is_empty_text (String.◌∷◌ c s) = false

cons-nonempty : (c : Char) (s : String) → str_eq (String.◌∷◌ c s) "" ≡ false
cons-nonempty c s = elim (Bool-cases (str_eq (String.◌∷◌ c s) "")) [
  | inl e ↦ e ∙ ap is_empty_text (sym ((eq_iff (String.◌∷◌ c s) "").0 e))
  | inr e ↦ e
]

show-nonempty : (n : ℤ) → str_eq (show n) "" ≡ false
show-nonempty (pos n) = cons-nonempty "p" (strokes n)
show-nonempty (negsuc n) = cons-nonempty "n" (strokes n)

formats-IsFormats : IsFormats convert formats
formats-IsFormats = record {
  reads_instant = λ t. ap (λ n. ok (aware n (pos 0))) (count-strokes t);
  reads_float = λ x. ap ok (number-show x);
  reads_int = λ n. ap ok (number-show n);
  converts_float = λ x. ap (λ n. some (some n)) (number-show x);
  shows_text = λ s. refl;
  float_nonempty = show-nonempty;
  int_nonempty = show-nonempty;
}

-- Two readings of one month, one of an earlier one, and the first of them again.
abbrev rows : List (Snapshot ℤ)
rows =
    offer 25 "cudo" (pos 3)
    ∷ offer 26 "cudo" (pos 4)
    ∷ offer 9 "vastai" (pos 2)
    ∷ offer 25 "cudo" (pos 7)
    ∷ []

rows-IsStorable : All (IsStorable convert formats) rows
rows-IsStorable = (
  plain 25 "cudo" (pos 3),
  (plain 26 "cudo" (pos 4), (plain 9 "vastai" (pos 2), (plain 25 "cudo" (pos 7), tt))),
)
  where
    plain :
        (t : ℕ) (source : String) (price : ℤ) → IsStorable convert formats (offer t source price)
    plain t source price = record { region = tt; provider_detail = tt; vcpu = tt }

nothing_loaded : load convert formats [] ≡ ok []
unfolding load
nothing_loaded = refl

abbrev no_rows : List (Snapshot ℤ)
no_rows = []

append_lem_example :
    (files' : Directory) × (written : Option ℕ) × (append convert formats rows []
      ≡ ok (files', written))
    × Appended convert formats (map (λ s. dedup_key s) no_rows) no_rows rows files'
append_lem_example =
    append_lem convert formats formats-IsFormats rows [] [] rows-IsStorable tt nothing_loaded

-- The store after the first run: the price of the repeated reading is not kept.
ran :
    append convert formats rows []
    ≡ ok (
      (append_each convert formats rows [] [] none).0,
      (append_each convert formats rows [] [] none).1,
    )
unfolding append load
ran = refl

append-idempotent_example :
    append convert formats rows (append_each convert formats rows [] [] none).0
    ≡ ok ((append_each convert formats rows [] [] none).0, none)
append-idempotent_example =
    append-idempotent convert formats formats-IsFormats rows []
      (append_each convert formats rows [] [] none).0
      (append_each convert formats rows [] [] none).1 [] rows-IsStorable tt nothing_loaded ran

decode-encode_example :
    decode convert formats fields (encode formats (offer 25 "cudo" (pos 3)) fields)
    ≡ ok (offer 25 "cudo" (pos 3))
decode-encode_example =
    decode-encode convert formats formats-IsFormats (offer 25 "cudo" (pos 3))
      (record { region = tt; provider_detail = tt; vcpu = tt })
