-- ===== src/Ops/Transfers.antt =====
-- The commands on transfer agents and on synchronisation points.
use vfi.Prelude.{ℕ, Bool, List, Option, some}
use vfi.Ops.Model.{Op, Driver, Outcome}
use vfi.Ops.Frame.{ask, tell, tell_inside, by_params, by_made, with_desc}

unfoldable pub xfer_create : Driver → List ℕ → Bool → Option Outcome
xfer_create d =
    with_desc d Op.xfer_create by_params
      (λ p. some (ask d d.desc_ops Op.xfer_create (d.locate_vfi_location p)))

unfoldable pub xfer_delete : Driver → List ℕ → Bool → Option Outcome
xfer_delete d =
    with_desc d Op.xfer_delete by_params
      (λ p. some (tell_inside d.desc_ops Op.xfer_delete (d.find_vfi_xfer p)))

unfoldable pub xfer_find : Driver → List ℕ → Bool → Option Outcome
xfer_find d =
    with_desc d Op.xfer_find by_made
      (λ p. some (ask d d.desc_ops Op.xfer_find (d.locate_vfi_location p)))

unfoldable pub xfer_put : Driver → List ℕ → Bool → Option Outcome
xfer_put d =
    with_desc d Op.xfer_put by_params
      (λ p. some (tell_inside d.desc_ops Op.xfer_put (d.find_vfi_xfer p)))

unfoldable pub xfer_lose : Driver → List ℕ → Bool → Option Outcome
xfer_lose d =
    with_desc d Op.xfer_lose by_params
      (λ p. some (tell_inside d.desc_ops Op.xfer_lose (d.find_vfi_xfer p)))

unfoldable pub sync_create : Driver → List ℕ → Bool → Option Outcome
sync_create d =
    with_desc d Op.sync_create by_params
      (λ p. some (ask d d.desc_ops Op.sync_create (d.locate_vfi_location p)))

unfoldable pub sync_delete : Driver → List ℕ → Bool → Option Outcome
sync_delete d =
    with_desc d Op.sync_delete by_params
      (λ p. some (tell d.desc_ops Op.sync_delete (d.find_vfi_sync p)))

unfoldable pub sync_find : Driver → List ℕ → Bool → Option Outcome
sync_find d =
    with_desc d Op.sync_find by_made
      (λ p. some (ask d d.desc_ops Op.sync_find (d.locate_vfi_location p)))

unfoldable pub sync_put : Driver → List ℕ → Bool → Option Outcome
sync_put d =
    with_desc d Op.sync_put by_params (λ p. some (tell d.desc_ops Op.sync_put (d.find_vfi_sync p)))

unfoldable pub sync_send : Driver → List ℕ → Bool → Option Outcome
sync_send d =
    with_desc d Op.sync_send by_params
      (λ p. some (ask d d.desc_ops Op.sync_send (d.find_vfi_sync p)))

unfoldable pub sync_wait : Driver → List ℕ → Bool → Option Outcome
sync_wait d =
    with_desc d Op.sync_wait by_params
      (λ p. some (ask d d.desc_ops Op.sync_wait (d.find_vfi_sync p)))
