-- ===== src/Ingestion/Venues/Tensordock.antt =====
-- core/ingestion/providers/tensordock.py: nothing of the payload makes it raise.
use Prim.Native.String.{String}
use mathlib.Core.Path.{subst}
use compute_quant_lab.Prelude.{
  ◌⊎◌, inr, All-imp, ap, suc, Option-cases, All, false, refl, inl, arith, ◌≡◌, ℕ, Option, none,
  some, List, [], ◌∷◌, if◌then◌else◌, ◌||◌,
}
use compute_quant_lab.Prelude.Float.{Float}
use compute_quant_lab.Prelude.Int.{ℤ, pos, leb_ℤ}
use compute_quant_lab.Prelude.Result.{Result, ok}
use compute_quant_lab.Utils.Coerce.{opt_float}
use compute_quant_lab.Ingestion.Json.{
  null, bool, float, Json, array, object, nil, end, Fields, int, text, Builtins, get, get_or,
  or_else, to_int, as_value, is_nonpositive, elements, values,
}
use compute_quant_lab.Ingestion.Venues.GpuModel.{normalize_gpu_model}
use compute_quant_lab.Ingestion.Venues.Offers.{
  IsListed, IsFrom, VenueRow, Web, bearer, payload_of, caught, stored_text,
}

module _ {F : Type 0} where
  -- A value if it is a `dict`, and else a default.
  abbrev pub dict_or : Fields F → Json F → Fields F
  dict_or default (object fs) = fs
  dict_or default _ = default

  abbrev pub nodes_of : Json F → List (Json F)
  nodes_of (object by_id) = values by_id
  nodes_of (array nodes) = elements nodes
  nodes_of _ = []

  unfoldable pub hostnodes_records : Fields F → List (Json F)
  hostnodes_records payload =
      let container = dict_or payload (get "data" payload) in
      nodes_of (get_or "hostnodes" (array nil) container)

  -- `specs.gpu` of a node
  abbrev pub gpu_of : Fields F → Option (Fields F)
  gpu_of node = as_dict (get "gpu" (dict_or end (get "specs" node)))
    where
      as_dict : Json F → Option (Fields F)
      as_dict (object fs) = some fs
      as_dict _ = none

  -- What the payload lists; a failed call or an answer that is no `dict` lists nothing.
  abbrev pub hostnodes_listed : Result (Json F) → List (Json F)
  hostnodes_listed (ok (object payload)) = hostnodes_records payload
  hostnodes_listed _ = []

  -- `[s for s in snaps if s is not None]`, a snapshot at a time
  abbrev pub with_row : Option (VenueRow F) → List (VenueRow F) → List (VenueRow F)
  with_row none rest = rest
  with_row (some row) rest = row ∷ rest

module _ {F : Type 0} ⦃numbers : Float F⦄ (builtins : Builtins F) where
  abbrev pub tensordock_row : ℕ → Fields F → Fields F → ℤ → Option F → VenueRow F
  tensordock_row snapshotted_at node gpu amount price =
      let location = dict_or end (get "location" node) in
      record {
        snapshotted_at = snapshotted_at;
        source = "tensordock";
        gpu_model =
            normalize_gpu_model builtins.upper (builtins.str (or_else (get "type" gpu) (text "")));
        price_usd_per_hour = price;
        lease_type = "on_demand";
        availability = amount;
        region = stored_text builtins (or_else (get "region" location) (get "country" location));
        gpu_memory_gb = opt_float builtins.convert (as_value (get "vram" gpu));
        vcpu = none;
        ram_gb = none;
        disk_gb = none;
        provider_detail = none;
        simulated = false;
      }

  -- The row, where the amount and the price are there.
  unfoldable pub offered :
      (ℤ → Option F → VenueRow F) → Option ℤ → Option (Option F) → Option (VenueRow F)
  offered row none price = none
  offered row (some amount) none = none
  offered row (some amount) (some price) =
      if leb_ℤ amount (pos 0) || is_nonpositive price then none else some (row amount price)

  unfoldable pub node_to_snapshot : Json F → ℕ → Option (VenueRow F)
  unfolding offered
  node_to_snapshot (object node) snapshotted_at = elim (gpu_of node) [
    | none ↦ none
    | some gpu ↦
        offered (tensordock_row snapshotted_at node gpu)
          (caught (to_int builtins (or_else (get "amount" gpu) (int (pos 0)))))
          (opt_float builtins.convert (as_value (get "price" gpu)))
  ]
  node_to_snapshot _ snapshotted_at = none

  unfoldable pub parse_tensordock : List (Json F) → ℕ → List (VenueRow F)
  unfolding node_to_snapshot
  parse_tensordock [] snapshotted_at = []
  parse_tensordock (node ∷ nodes) snapshotted_at =
      with_row (node_to_snapshot node snapshotted_at) (parse_tensordock nodes snapshotted_at)

  unfoldable pub fetch_tensordock : Web F → String → ℕ → List (VenueRow F)
  unfolding hostnodes_records parse_tensordock
  fetch_tensordock web api_key snapshotted_at =
      parse_tensordock
        (hostnodes_listed (
          payload_of
            (web.get "https://dashboard.tensordock.com/api/v2/hostnodes" (bearer api_key))))
        snapshotted_at

  -- The node is up for rent with some GPUs at a price that is a number, not zero or below, and is the
  -- row's.
  abbrev pub IsTensordockRow : ℕ → Fields F → VenueRow F → Type 0
  IsTensordockRow now node row =
      IsFrom "tensordock" now row
      × (gpu : Fields F) × (gpu_of node ≡ some gpu)
      × (caught (to_int builtins (or_else (get "amount" gpu) (int (pos 0))))
          ≡ some row.availability)
      × (leb_ℤ row.availability (pos 0) ≡ false)
      × (opt_float builtins.convert (as_value (get "price" gpu)) ≡ some row.price_usd_per_hour)
      × (is_nonpositive row.price_usd_per_hour ≡ false)

  offered-some :
      (row_of : ℤ → Option F → VenueRow F) (amount : Option ℤ) (price : Option (Option F))
      (row : VenueRow F)
      → offered row_of amount price ≡ some row
      → (n : ℤ) × (p : Option F) × (amount ≡ some n)
        × (price ≡ some p)
        × (leb_ℤ n (pos 0) ≡ false)
        × (is_nonpositive p ≡ false)
        × (row_of n p ≡ row)
  unfolding offered
  offered-some row_of none price row e = absurd (cc)
  offered-some row_of (some n) none row e = absurd (cc)
  offered-some row_of (some n) (some p) row e =
      (n, p, refl, refl, ground arith, ground arith, ground arith)

  node_to_snapshot-IsTensordockRow :
      (v : Json F) (now : ℕ) (row : VenueRow F)
      → node_to_snapshot v now ≡ some row
      → (node : Fields F) × (v ≡ object node) × IsTensordockRow now node row
  unfolding node_to_snapshot
  node_to_snapshot-IsTensordockRow (object node) now row e =
      (node, refl, row_of_gpu (Option-cases (gpu_of node)))
    where
      row_of_gpu :
          (gpu_of node ≡ none) ⊎ ((gpu : Fields F) × (gpu_of node ≡ some gpu))
          → IsTensordockRow now node row
      row_of_gpu (inl e_gpu) = absurd (ground arith)
      row_of_gpu (inr (gpu, e_gpu)) =
          let offer : offered (tensordock_row now node gpu)
                (caught (to_int builtins (or_else (get "amount" gpu) (int (pos 0)))))
                (opt_float builtins.convert (as_value (get "price" gpu)))
              ≡ some row =
            ground arith in
          let (n, p, e_n, e_p, some_gpus, passes, same) = offered-some _ _ _ row offer in
          subst (IsTensordockRow now node) same
            ((refl, refl, inl refl, refl), gpu, e_gpu, e_n, some_gpus, e_p, passes)
  node_to_snapshot-IsTensordockRow null now row e = absurd (cc)
  node_to_snapshot-IsTensordockRow (bool b) now row e = absurd (cc)
  node_to_snapshot-IsTensordockRow (int n) now row e = absurd (cc)
  node_to_snapshot-IsTensordockRow (float x) now row e = absurd (cc)
  node_to_snapshot-IsTensordockRow (text s) now row e = absurd (cc)
  node_to_snapshot-IsTensordockRow (array vs) now row e = absurd (cc)

  with_row-All :
      (P : VenueRow F → Type 0) (o : Option (VenueRow F)) (rest : List (VenueRow F))
      → All P rest
      → ((row : VenueRow F) → o ≡ some row → P row)
      → All P (with_row o rest)
  with_row-All P none rest h p = h
  with_row-All P (some row) rest h p = (p row refl, h)

  -- The parser returns for any nodes, and each of its rows is of a listed node whose GPUs have an amount
  -- above zero, the row's availability, and a price that is a number and not at or below zero (a NaN
  -- passes), the row's price.
  pub parse_tensordock_lem :
      (nodes : List (Json F)) (now : ℕ)
      → All (IsListed (IsTensordockRow now) nodes) (parse_tensordock nodes now)
  unfolding parse_tensordock
  parse_tensordock_lem [] now = tt
  parse_tensordock_lem (v ∷ nodes) now =
      let later =
        All-imp _ (IsListed (IsTensordockRow now) (v ∷ nodes))
          (λ row (i, node, at, p). (suc i, node, at, p)) (parse_tensordock nodes now)
          (parse_tensordock_lem nodes now) in
      with_row-All _ (node_to_snapshot v now) _ later (λ row e.
        let (node, same, p) = node_to_snapshot-IsTensordockRow v now row e in
        (0, node, ap some same, p))
