-- ===== src/Ingestion/SnapshotStore/Appending.antt =====
-- core/ingestion/snapshot_store.py: one row written into a file.
use Prim.Native.String.{String}
use mathlib.Core.List.{append_assoc}
use compute_quant_lab.Prelude.{
  ℕ, ◌≡◌, inl, inr, refl, sym, ap, ◌∙◌, true, false, List, [], ◌∷◌, ◌++◌, All, eqb, ltb, Bool-cases,
}
use compute_quant_lab.Prelude.Result.{ok, >>=-eq-ok}
use compute_quant_lab.Ingestion.Protocols.{Snapshot}
use compute_quant_lab.Utils.Coerce.{Conversions}
use compute_quant_lab.Ingestion.SnapshotStore.{
  Formats, fields, Line, Directory, ensure_header_has, encode, new_lines, added_lines, write,
  decode, load_rows, load_file, load,
}
use compute_quant_lab.Ingestion.SnapshotStore.Rows.{IsFormats, IsStorable, decode-encode}

-- A file with the columns that the store writes today.
abbrev pub IsCurrent : ℕ × List Line → Type 0
IsCurrent file = (body : List Line) × (file.1 ≡ fields ∷ body)

module _ {F : Type 0} (convert : Conversions F) (formats : Formats F)
    (laws : IsFormats convert formats) where
  encode_cells :
      (s : Snapshot F)
      → IsStorable convert formats s
      → (x : String) × (xs : Line) × (encode formats s fields ≡ x ∷ xs)
        × (decode convert formats fields (x ∷ xs) ≡ ok s)
  unfolding encode
  encode_cells s h = (_, _, refl, decode-encode convert formats laws s h)

  load_rows-one :
      (s : Snapshot F)
      → IsStorable convert formats s
      → load_rows convert formats fields (encode formats s fields ∷ []) ≡ ok (s ∷ [])
  unfolding load_rows
  load_rows-one s h = let (x, xs, e, e') = encode_cells s h in rw (e, e') refl

  load_rows-added :
      (body : List Line) (s : Snapshot F) {rows : List (Snapshot F)}
      → IsStorable convert formats s
      → load_rows convert formats fields body ≡ ok rows
      → load_rows convert formats fields (body ++ (encode formats s fields ∷ []))
        ≡ ok (rows ++ (s ∷ []))
  unfolding load_rows
  load_rows-added [] s {rows} h e =
      let none_yet : [] ≡ rows = cc in load_rows-one s h ∙ ap (λ l. ok (l ++ (s ∷ []))) none_yet
  load_rows-added ([] ∷ body) s h e = load_rows-added body s h e
  load_rows-added ((x ∷ xs) ∷ body) s {rows} h e =
      let (first, e₁, e₂) = >>=-eq-ok (decode convert formats fields (x ∷ xs)) _ e in
      let (rest, e₃, e₄) = >>=-eq-ok (load_rows convert formats fields body) _ e₂ in
      let all : first ∷ rest ≡ rows = cc in
      rw (e₁, load_rows-added body s h e₃) (ap (λ l. ok (l ++ (s ∷ []))) all)

  added-lines :
      (body : List Line) (s : Snapshot F)
      → added_lines formats s (fields ∷ body) ≡ fields ∷ (body ++ (encode formats s fields ∷ []))
  unfolding added_lines ensure_header_has
  added-lines body s = refl

  load_cons :
      (m : ℕ) (lines body : List Line) (rest : Directory) {here there : List (Snapshot F)}
      → lines ≡ fields ∷ body
      → load_rows convert formats fields body ≡ ok here
      → load convert formats rest ≡ ok there
      → load convert formats ((m, lines) ∷ rest) ≡ ok (here ++ there)
  unfolding load
  load_cons m lines body rest same e e' = rw (same, e, e') refl

  module _ (month m : ℕ) (s : Snapshot F) (lines : List Line) (rest : Directory) where
    write_found :
        (body : List Line)
        → lines ≡ fields ∷ body
        → eqb m month ≡ true
        → write formats month s ((m, lines) ∷ rest)
          ≡ (m, fields ∷ (body ++ (encode formats s fields ∷ []))) ∷ rest
    unfolding write
    write_found body same e = rw e (
        ap (λ l. (m, added_lines formats s l) ∷ rest) same
        ∙ ap (λ l. (m, l) ∷ rest) (added-lines body s))

    write_earlier :
        eqb m month ≡ false
        → ltb month m ≡ true
        → write formats month s ((m, lines) ∷ rest)
          ≡ (month, fields ∷ encode formats s fields ∷ []) ∷ (m, lines) ∷ rest
    unfolding write new_lines
    write_earlier e e' = rw (e, e') refl

    write_later :
        eqb m month ≡ false
        → ltb month m ≡ false
        → write formats month s ((m, lines) ∷ rest) ≡ (m, lines) ∷ write formats month s rest
    unfolding write
    write_later e e' = rw (e, e') refl

  -- Writing one row into files with the current columns adds it to what is loaded.
  abbrev pub Adds : Snapshot F → List (Snapshot F) → Directory → Type 0
  Adds s old files =
      (before : List (Snapshot F)) × (after : List (Snapshot F)) × (old ≡ before ++ after)
      × (load convert formats files ≡ ok (before ++ (s ∷ after)))
      × All IsCurrent files

  load-inv :
      (m : ℕ) (lines body : List Line) (rest : Directory) {old : List (Snapshot F)}
      → lines ≡ fields ∷ body
      → load convert formats ((m, lines) ∷ rest) ≡ ok old
      → (here : List (Snapshot F)) × (there : List (Snapshot F)) × (load_rows convert formats fields
            body
          ≡ ok here)
        × (load convert formats rest ≡ ok there)
        × (old ≡ here ++ there)
  unfolding load
  load-inv m lines body rest {old} same e =
      let (here, e₁, e₂) = >>=-eq-ok (load_file convert formats lines) _ e in
      let (there, e₃, e₄) = >>=-eq-ok (load convert formats rest) _ e₂ in
      (here, there, ap (load_file convert formats) (sym same) ∙ e₁, e₃, cc)

  first_file :
      (month : ℕ) (s : Snapshot F)
      → write formats month s [] ≡ (month, fields ∷ encode formats s fields ∷ []) ∷ []
  unfolding write new_lines
  first_file month s = refl

  load_nil : load convert formats [] ≡ ok []
  unfolding load
  load_nil = refl

  pub write_lem :
      (month : ℕ) (s : Snapshot F) (files : Directory) {old : List (Snapshot F)}
      → IsStorable convert formats s
      → All IsCurrent files
      → load convert formats files ≡ ok old
      → Adds s old (write formats month s files)
  write_lem month s [] {old} h current e =
      let none_yet : old ≡ [] = cc load_nil in
      rw (first_file month s) (
        [],
        [],
        none_yet,
        load_cons month _ (encode formats s fields ∷ []) [] refl (load_rows-one s h) load_nil,
        ((encode formats s fields ∷ [], refl), tt),
      )
  write_lem month s ((m, lines) ∷ rest) {old} h ((body, same), current) e =
      let (here, there, e₁, e₂, all) = load-inv m lines body rest same e in
      elim (Bool-cases (eqb m month)) [
        | inl found ↦ rw (write_found month m s lines rest body same found) (
          here,
          there,
          all,
          load_cons m _ (body ++ (encode formats s fields ∷ [])) rest refl
                (load_rows-added body s h e₁) e₂
              ∙ ap ok (append_assoc here (s ∷ []) there),
          ((body ++ (encode formats s fields ∷ []), refl), current),
        )
        | inr other ↦ elim (Bool-cases (ltb month m)) [
          | inl earlier ↦ rw (write_earlier month m s lines rest other earlier) (
            [],
            old,
            refl,
            load_cons month _ (encode formats s fields ∷ []) _ refl (load_rows-one s h) e,
            ((encode formats s fields ∷ [], refl), ((body, same), current)),
          )
          | inr later ↦
              let (before, after, split, loaded, still) = write_lem month s rest h current e₂ in
              rw (write_later month m s lines rest other later) (
                here ++ before,
                after,
                all ∙ ap (λ l. here ++ l) split ∙ sym (append_assoc here before after),
                load_cons m lines body _ same e₁ loaded
                    ∙ ap ok (sym (append_assoc here before (s ∷ after))),
                ((body, same), still),
              )
        ]
      ]
