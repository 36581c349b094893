-- ===== src/Worker/Instance.antt =====
-- `createInstance`, `newActInst`, `createWrkrInstance` and `freeWrkrInstance`.
use mmhashchainsigs.Base.{
  Bool, Bytes, List, Option, [], false, if◌then◌else◌, ltb, none, some, ℕ, ◌%◌, ◌+◌, ◌-◌, ◌>>=◌,
  ◌^◌, ◌∷◌,
}
use mmhashchainsigs.Crypto.Alg.{hash_from_name, sha256}
use mmhashchainsigs.Crypto.Host.{Host}
use mmhashchainsigs.Worker.Process.{worker_free}
use mmhashchainsigs.Worker.State.{Instance, SavedState, Worker}
use mmhashchainsigs.Worker.StateFile.{load_state, save_state}

-- A parameter of the configuration that is used, by its name in `actpdescr`.
pub data ActionParam : Type 0 where
  privatekey certificate template statefile_dir : Bytes → ActionParam
  embed_cert : Bool → ActionParam
  hashalgo : Option Bytes → ActionParam
  signinterval : ℕ → ActionParam

abbrev pub default_sign_interval : ℕ
default_sign_interval = 1024

unfoldable pub default_instance : Instance
default_instance = record {
  privkey_path = none;
  cert_path = none;
  tpl_name = none;
  statefiledir = none;
  sign_interval = default_sign_interval;
  embedcert = false;
  hash_alg = sha256;
}

-- One round of the loop; the interval is cast to 32 bits, and an unknown algorithm aborts.
unfoldable pub set_param : Instance → ActionParam → Option Instance
set_param i (privatekey p) = some (record i { privkey_path = some p })
set_param i (certificate p) = some (record i { cert_path = some p })
set_param i (template t) = some (record i { tpl_name = some t })
set_param i (statefile_dir d) = some (record i { statefiledir = some d })
set_param i (embed_cert b) = some (record i { embedcert = b })
set_param i (hashalgo name) = do alg ← hash_from_name name; some (record i { hash_alg = alg })
set_param i (signinterval n) = some (record i { sign_interval = n % 2 ^ 32 })

unfoldable pub new_act_inst : Instance → List ActionParam → Option Instance
new_act_inst i [] = some i
new_act_inst i (p ∷ ps) = set_param i p >>= λ j. new_act_inst j ps

module _ ⦃h : Host⦄ where
  unfoldable pub pending_of : Option Bytes → Option Bytes → Option SavedState
  pending_of none file = none
  pending_of (some dir) file = load_state file

  -- The new count of workers, and the worker, unless one exists already.
  unfoldable pub create_worker : ℕ → Instance → Option Bytes → ℕ × Option Worker
  unfolding pending_of
  create_worker count inst file = if ltb 1 (count + 1) then (count + 1, none) else (
    count + 1,
    some (record {
      inst = inst;
      active = none;
      pending_state = pending_of inst.statefiledir file;
      state_file = file;
    }),
  )

  -- The count and the worker behind `freeWrkrInstance`, with the results of the three file calls.
  unfoldable pub free_worker : ℕ → Worker → Bool → Bool → Bool → ℕ × Worker
  free_worker count w open_ok close_ok rename_ok =
      let kept : Worker = elim w.inst.statefiledir [
        | none ↦ w
        | some dir ↦ (save_state w open_ok close_ok rename_ok).0
      ] in
      (count - 1, worker_free kept)
