-- ===== src/Models/PurgedKFold/Config.antt =====
-- core/models/validation.py, `PurgedKFold.__init__`.
use compute_quant_lab.Prelude.{◌≡◌, ◌<◌, ◌↔◌, Option, none, some, arith}
use compute_quant_lab.Prelude.Int.{ℤ, pos, negsuc}
use compute_quant_lab.Prelude.Result.{ok}
use compute_quant_lab.Models.PurgedKFold.{PurgedKFold, make, default_embargo}

-- The constructor accepts exactly two or more splits and a horizon and an embargo that are not
-- negative, and keeps them; an embargo that is not given is the horizon.
pub make_iff :
    (n_splits horizon : ℤ) (embargo : Option ℤ) (k : PurgedKFold)
    → (make n_splits horizon embargo ≡ ok k) ↔ (
        (1 < k.n_splits)
        × (n_splits ≡ pos k.n_splits)
        × (horizon ≡ pos k.horizon)
        × (default_embargo embargo horizon ≡ pos k.embargo))
unfolding make
make_iff (pos n) (pos h) none k = (ground arith, ground arith)
make_iff (pos n) (pos h) (some (pos e)) k = (ground arith, ground arith)
make_iff (pos n) (pos h) (some (negsuc e)) k = (ground arith, ground arith)
make_iff (negsuc n) h e k = (ground arith, ground arith)
make_iff (pos n) (negsuc h) e k = (ground arith, ground arith)
