-- ===== src/Ingestion/Venues/Vastai.antt =====
-- core/ingestion/providers/vastai.py
use Prim.Native.String.{String}
use mathlib.Core.Path.{subst}
use compute_quant_lab.Prelude.{
  All, true, not, refl, inl, arith, ◌≡◌, ℕ, Option, none, some, List, false,
}
use compute_quant_lab.Prelude.Float.{Float, nought}
use compute_quant_lab.Prelude.Int.{ℤ, pos, leb_ℤ}
use compute_quant_lab.Prelude.Result.{Result, ok, ◌>>=◌, >>=-eq-ok, ok_inj}
use compute_quant_lab.Ingestion.Json.{
  Json, Fields, fields, bool, int, float, text, array, nil, Builtins, get, get_or, truthy, or_else,
  iterate, to_float, to_int,
}
use compute_quant_lab.Ingestion.Venues.GpuModel.{normalize_gpu_model}
use compute_quant_lab.Ingestion.Venues.Offers.{
  IsListed, VenueRow, Web, bearer, payload_of, given, over, megabytes, shown, collect, IsFrom,
  skip_if, append_row, skip_if-All, append_row-All, collect-fields-All,
}

module _ {F : Type 0} ⦃numbers : Float F⦄ (builtins : Builtins F) where
  -- The row of a rentable offer of `num_gpus` GPUs.
  unfoldable pub vastai_row : ℕ → ℤ → Fields F → Result (VenueRow F)
  vastai_row snapshotted_at num_gpus offer = do
    dph_total ← to_float builtins (get_or "dph_total" (float (some nought)) offer)
    gpu_memory_gb ← given (megabytes builtins) (get "gpu_ram" offer)
    vcpu ←
        given (to_int builtins) (or_else (get "cpu_cores_effective" offer) (get "cpu_cores" offer))
    ram_gb ← given (megabytes builtins) (get "cpu_ram" offer)
    disk_gb ← given (to_float builtins) (get "disk_space" offer)
    ok (record {
      snapshotted_at = snapshotted_at;
      source = "vastai";
      gpu_model =
          normalize_gpu_model builtins.upper (builtins.str (get_or "gpu_name" (text "") offer));
      price_usd_per_hour = over (builtins.convert.of_int num_gpus) dph_total;
      lease_type = "on_demand";
      availability = num_gpus;
      region = shown builtins (or_else (get "geolocation" offer) (get "location" offer));
      gpu_memory_gb = gpu_memory_gb;
      vcpu = vcpu;
      ram_gb = ram_gb;
      disk_gb = disk_gb;
      provider_detail = none;
      simulated = false;
    })

  -- One turn of the loop over the offers.
  unfoldable pub vastai_rows : ℕ → Fields F → Result (List (VenueRow F))
  unfolding vastai_row
  vastai_rows snapshotted_at offer =
      skip_if (not (truthy (get_or "rentable" (bool false) offer))) (do
        num_gpus ← to_int builtins (or_else (get_or "num_gpus" (int (pos 0)) offer) (int (pos 0)))
        skip_if (leb_ℤ num_gpus (pos 0)) (append_row (vastai_row snapshotted_at num_gpus offer)))

  unfoldable pub parse_vastai_offers : List (Json F) → ℕ → Result (List (VenueRow F))
  unfolding vastai_rows
  parse_vastai_offers offers snapshotted_at =
      collect (λ offer. fields offer >>= vastai_rows snapshotted_at) offers

  unfoldable pub fetch_vastai : Web F → String → ℕ → Result (List (VenueRow F))
  unfolding parse_vastai_offers
  fetch_vastai web api_key snapshotted_at = do
    payload ← payload_of (web.get "https://console.vast.ai/api/v0/bundles/" (bearer api_key))
    answer ← fields payload
    offers ← iterate builtins (get_or "offers" (array nil) answer)
    parse_vastai_offers offers snapshotted_at

  -- What the row of an offer of `n` GPUs says.
  abbrev IsRowOf : ℕ → ℤ → Fields F → VenueRow F → Type 0
  IsRowOf now n offer row =
      IsFrom "vastai" now row
      × (row.availability ≡ n)
      × (dph_total : Option F) × (to_float builtins (get_or "dph_total" (float (some nought)) offer)
          ≡ ok dph_total)
      × (row.price_usd_per_hour ≡ over (builtins.convert.of_int n) dph_total)

  vastai_row-IsRowOf :
      (now : ℕ) (n : ℤ) (offer : Fields F) (row : VenueRow F)
      → vastai_row now n offer ≡ ok row
      → IsRowOf now n offer row
  unfolding vastai_row
  vastai_row-IsRowOf now n offer row e =
      let (dph, e_dph, rest) = >>=-eq-ok (to_float builtins _) _ e in
      let (mem, _, rest) = >>=-eq-ok (given (megabytes builtins) _) _ rest in
      let (vcpu, _, rest) = >>=-eq-ok (given (to_int builtins) _) _ rest in
      let (ram, _, rest) = >>=-eq-ok (given (megabytes builtins) _) _ rest in
      let (disk, _, rest) = >>=-eq-ok (given (to_float builtins) _) _ rest in
      subst (IsRowOf now n offer) (ok_inj rest)
        ((refl, refl, inl refl, refl), refl, dph, e_dph, refl)

  -- The offer is rentable and has GPUs, and the row is its.
  abbrev pub IsVastaiRow : ℕ → Fields F → VenueRow F → Type 0
  IsVastaiRow now offer row =
      (truthy (get_or "rentable" (bool false) offer) ≡ true)
      × (n : ℤ) × (to_int builtins (or_else (get_or "num_gpus" (int (pos 0)) offer) (int (pos 0)))
          ≡ ok n)
      × (leb_ℤ n (pos 0) ≡ false)
      × IsRowOf now n offer row

  vastai_rows-IsVastaiRow :
      (now : ℕ) (offer : Fields F) (rows : List (VenueRow F))
      → vastai_rows now offer ≡ ok rows
      → All (IsVastaiRow now offer) rows
  unfolding vastai_rows
  vastai_rows-IsVastaiRow now offer rows e = skip_if-All _ _ _ rows e (λ rentable kept.
      let (n, e_n, rest) = >>=-eq-ok (to_int builtins _) _ kept in
      skip_if-All _ _ _ rows rest (λ some_gpus appended.
        append_row-All _ _ rows appended (λ row e_row.
          (ground arith, n, e_n, some_gpus, vastai_row-IsRowOf now n offer row e_row))))

  -- Each row of the parsed offers is of a listed offer that is rentable and has some number `n` of GPUs
  -- above zero: it is Vast.ai's, at the instant given, on demand, available `n` times, at the quotient
  -- by `n` of the offer's `dph_total`, or of 0 where the offer names none.
  pub parse_vastai_offers_lem :
      (offers : List (Json F)) (now : ℕ) (rows : List (VenueRow F))
      → parse_vastai_offers offers now ≡ ok rows
      → All (IsListed (IsVastaiRow now) offers) rows
  unfolding parse_vastai_offers
  parse_vastai_offers_lem offers now =
      collect-fields-All (IsVastaiRow now) (vastai_rows now) offers (vastai_rows-IsVastaiRow now)
