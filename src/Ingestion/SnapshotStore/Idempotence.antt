-- ===== src/Ingestion/SnapshotStore/Idempotence.antt =====
-- core/ingestion/snapshot_store.py, `append`: what the store holds afterwards.
use mathlib.Core.List.{Permᴰ, append-nil}
use mathlib.Core.List.Permᴰ
use text.Mathlib.TextPositions.{eq_refl}
use compute_quant_lab.Prelude.{
  ℕ, ◌≡◌, inl, inr, refl, sym, ap, ◌∙◌, Bool, true, false, Option, none, some, List, [], ◌∷◌, ◌++◌,
  All, All-imp, any, map, if◌then◌else◌, arith, Bool-cases,
}
use compute_quant_lab.Prelude.Result.{ok}
use compute_quant_lab.Ingestion.Protocols.{Snapshot, DedupKey, dedup_key, key_eq}
use compute_quant_lab.Utils.Coerce.{Conversions}
use compute_quant_lab.Ingestion.SnapshotStore.{Formats, Directory, write, load, append_each, append}
use compute_quant_lab.Ingestion.SnapshotStore.Rows.{IsFormats, IsStorable}
use compute_quant_lab.Ingestion.SnapshotStore.Appending.{IsCurrent, write_lem}

module _ {F : Type 0} where
  abbrev pub holds : DedupKey → List (Snapshot F) → Bool
  holds key stored = any (λ s. key_eq key (dedup_key s)) stored

  -- The rows whose key is neither among `seen` nor that of an earlier row.
  abbrev pub fresh : List DedupKey → List (Snapshot F) → List (Snapshot F)
  fresh seen [] = []
  fresh seen (s ∷ rows) =
      if any (key_eq (dedup_key s)) seen
      then fresh seen rows
      else s ∷ fresh (dedup_key s ∷ seen) rows

  holds-insert :
      (key : DedupKey) (s : Snapshot F) (before after : List (Snapshot F))
      → holds key (before ++ (s ∷ after))
        ≡ (if key_eq key (dedup_key s) then true else holds key (before ++ after))
  holds-insert key s [] after = refl
  holds-insert key s (b ∷ before) after = ground (arith, holds-insert key s before after)

  holds-map :
      (key : DedupKey) (stored : List (Snapshot F))
      → any (key_eq key) (map (λ s. dedup_key s) stored) ≡ holds key stored
  holds-map key [] = refl
  holds-map key (s ∷ stored) = ground (arith, holds-map key stored)

  key_eq_refl : (s : Snapshot F) → key_eq (dedup_key s) (dedup_key s) ≡ true
  key_eq_refl s = ground (arith, eq_refl s.source, eq_refl s.gpu_model, eq_refl s.lease_type)

  agree_after :
      (key : DedupKey) (s : Snapshot F) (seen : List DedupKey) (before after : List (Snapshot F))
      → any (key_eq key) seen ≡ holds key (before ++ after)
      → any (key_eq key) (dedup_key s ∷ seen) ≡ holds key (before ++ (s ∷ after))
  agree_after key s seen before after h =
      ap (λ b. if key_eq key (dedup_key s) then true else b) h
      ∙ sym (holds-insert key s before after)

  held_after :
      (key : DedupKey) (s : Snapshot F) (before after : List (Snapshot F))
      → holds key (before ++ after) ≡ true
      → holds key (before ++ (s ∷ after)) ≡ true
  held_after key s before after h = ground (arith, holds-insert key s before after)

  held_self :
      (s : Snapshot F) (before after : List (Snapshot F))
      → holds (dedup_key s) (before ++ (s ∷ after)) ≡ true
  held_self s before after =
      holds-insert (dedup_key s) s before after
      ∙ ap (λ b. if b then true else holds (dedup_key s) (before ++ after)) (key_eq_refl s)

  moved :
      {all old : List (Snapshot F)} (s : Snapshot F) (before after rest : List (Snapshot F))
      → old ≡ before ++ after
      → Permᴰ all ((before ++ (s ∷ after)) ++ rest)
      → Permᴰ all (old ++ (s ∷ rest))
  moved s before after rest split perm = rw split (
      Permᴰ.trans perm (
        Permᴰ.trans (Permᴰ.append_right rest (Permᴰ.middle s before after))
          (Permᴰ.symm (Permᴰ.middle s (before ++ after) rest))))

module _ {F : Type 0} (convert : Conversions F) (formats : Formats F) where
  -- The files after rows were appended that are new by the keys `seen`.
  abbrev pub Appended : List DedupKey → List (Snapshot F) → List (Snapshot F) → Directory → Type 0
  Appended seen old rows files =
      (all : List (Snapshot F)) × (load convert formats files ≡ ok all)
      × Permᴰ all (old ++ fresh seen rows)
      × ((key : DedupKey) → holds key old ≡ true → holds key all ≡ true)
      × All (λ s. holds (dedup_key s) all ≡ true) rows
      × All IsCurrent files

  module _ (s : Snapshot F) (rows : List (Snapshot F)) (seen : List DedupKey) (files : Directory)
      (written : Option ℕ) where
    append_each-skip :
        any (key_eq (dedup_key s)) seen ≡ true
        → append_each convert formats (s ∷ rows) seen files written
          ≡ append_each convert formats rows seen files written
    unfolding append_each
    append_each-skip e = rw e refl

    append_each-keep :
        any (key_eq (dedup_key s)) seen ≡ false
        → append_each convert formats (s ∷ rows) seen files written
          ≡ append_each convert formats rows
              (dedup_key s ∷ seen)
              (write formats (formats.month_of s.snapshotted_at) s files)
              (some (formats.month_of s.snapshotted_at))
    unfolding append_each
    append_each-keep e = rw e refl

  append_each-nil :
      (seen : List DedupKey) (files : Directory) (written : Option ℕ)
      → append_each convert formats [] seen files written ≡ (files, written)
  unfolding append_each
  append_each-nil seen files written = refl

  -- Rows whose keys are all there change nothing.
  append_each-seen :
      (rows : List (Snapshot F)) (seen : List DedupKey) (files : Directory) (written : Option ℕ)
      → All (λ s. any (key_eq (dedup_key s)) seen ≡ true) rows
      → append_each convert formats rows seen files written ≡ (files, written)
  append_each-seen [] seen files written h = append_each-nil seen files written
  append_each-seen (s ∷ rows) seen files written h =
      append_each-skip s rows seen files written h.0 ∙ append_each-seen rows seen files written h.1

  module _ (laws : IsFormats convert formats) where
    append_each_lem :
        (rows : List (Snapshot F)) (seen : List DedupKey) (files : Directory) (written : Option ℕ)
        (old : List (Snapshot F))
        → All (IsStorable convert formats) rows
        → All IsCurrent files
        → load convert formats files ≡ ok old
        → ((key : DedupKey) → any (key_eq key) seen ≡ holds key old)
        → Appended seen old rows (append_each convert formats rows seen files written).0
    append_each_lem [] seen files written old h current e agree =
        rw (append_each-nil seen files written)
          (old, e, rw (append-nil old) (Permᴰ.refl old), (λ key p. p), tt, current)
    append_each_lem (s ∷ rows) seen files written old (h, hs) current e agree =
        elim (Bool-cases (any (key_eq (dedup_key s)) seen)) [
          | inl known ↦
              let (all, loaded, perm, kept, held, still) =
                append_each_lem rows seen files written old hs current e agree in
              rw (append_each-skip s rows seen files written known) (
                all,
                loaded,
                rw known perm,
                kept,
                (kept (dedup_key s) (sym (agree (dedup_key s)) ∙ known), held),
                still,
              )
          | inr new ↦
              let month = formats.month_of s.snapshotted_at in
              let (before, after, split, loaded, current') =
                write_lem convert formats laws month s files h current e in
              let old' = before ++ (s ∷ after) in
              let (all, loaded', perm, kept, held, still) =
                append_each_lem rows (dedup_key s ∷ seen) (write formats month s files) (some month)
                  old' hs current' loaded
                  (λ key. agree_after key s seen before after (agree key ∙ ap (holds key) split)) in
              rw (append_each-keep s rows seen files written new) (
                all,
                loaded',
                rw new (moved s before after (fresh (dedup_key s ∷ seen) rows) split perm),
                (λ key p.
                    kept key (held_after key s before after (sym (ap (holds key) split) ∙ p))),
                (kept (dedup_key s) (held_self s before after), held),
                still,
              )
        ]

    -- Rows are appended to a store whose files have the current columns: the call succeeds, and
    -- what is loaded afterwards is, up to its order, what was loaded before and each row whose
    -- natural key was not there, once. Every row's key is then there, and all columns stay current.
    -- The rows are such as a file can hold.
    pub append_lem :
        (rows : List (Snapshot F)) (files : Directory) (old : List (Snapshot F))
        → All (IsStorable convert formats) rows
        → All IsCurrent files
        → load convert formats files ≡ ok old
        → (files' : Directory) × (written : Option ℕ) × (append convert formats rows files
            ≡ ok (files', written))
          × Appended (map (λ s. dedup_key s) old) old rows files'
    unfolding append
    append_lem rows files old h current e =
        let seen = map (λ s. dedup_key s) old in
        (
          (append_each convert formats rows seen files none).0,
          (append_each convert formats rows seen files none).1,
          rw e refl,
          append_each_lem rows seen files none old h current e (λ key. holds-map key old),
        )

    -- Appending the same rows again writes nothing: the files stay as they are, and no file is
    -- named as written. The rows are such as a file can hold, and the files had the current columns.
    pub append-idempotent :
        (rows : List (Snapshot F)) (files files' : Directory) (written : Option ℕ)
        (old : List (Snapshot F))
        → All (IsStorable convert formats) rows
        → All IsCurrent files
        → load convert formats files ≡ ok old
        → append convert formats rows files ≡ ok (files', written)
        → append convert formats rows files' ≡ ok (files', none)
    unfolding append
    append-idempotent rows files files' written old h current e ran =
        let (after, w, run, (all, loaded, _, _, held, _)) = append_lem rows files old h current e in
        let same : after ≡ files' = ground (arith, run, ran) in
        let loaded' : load convert formats files' ≡ ok all =
          ap (load convert formats) (sym same) ∙ loaded in
        rw loaded' (
          ap ok (
            append_each-seen rows (map (λ s. dedup_key s) all) files' none (
              All-imp (λ s. holds (dedup_key s) all ≡ true)
                (λ s. any (key_eq (dedup_key s)) (map (λ s. dedup_key s) all) ≡ true)
                (λ s p. holds-map (dedup_key s) all ∙ p) rows held)))
