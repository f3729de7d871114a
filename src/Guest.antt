-- ===== src/Guest.antt =====
-- The guest of a tab: `try_load` and `GuestRuntime` of renderer/src/abi.rs, and the call of a guest
-- in `ShellEventHandler` of renderer/src/ui.rs. wasmtime is a parameter.
pub mod Gestures
use Prim.Native.Nat.{bit_and}
use wasibrowser.Prelude.{
  ℕ, ◌+◌, ◌/◌, ◌^◌, Bool, true, false, Option, none, some, List, [], ◌∷◌, ◌++◌, not, ◌&&◌, ◌||◌,
  if◌then◌else◌, ltb, ◌==◌, length,
}
use wasibrowser.Bytes.{Bytes}
use wasibrowser.Map.{Map, Set, get, contains}
use wasibrowser.Map.Keys.{nat_key, pair_key}
use wasibrowser.Abi.Atoms.{well_known_atoms}
use wasibrowser.Abi.Shared.{Shared, ServiceEntry}
use wasibrowser.Abi.Apply.{NodeMaps}
use wasibrowser.Abi.Kind
use wasibrowser.Abi.Events.{EventOut, text_of, padded, event_record}
use wasibrowser.Abi.Imports.{Effect, HostCall, host_call}

-- What a guest does in a call: it returns, traps, or calls a host import with its memory as it
-- stands, and goes on with the value it gets. A call that does not end is not a run.
pub data Run (I : Type 0) : Type 0 where
  returns : (value : ℕ) (inst : I) → Run I
  traps : (inst : I) → Run I
  asks : (mem : Option Bytes) (call : HostCall) (next : ℕ → Run I) → Run I

-- What loading a module leads to: no readable module, one without the GWB interface, or the run of
-- its `_initialize` and `gwb_abi_version`.
pub data Loading (I : Type 0) : Type 0 where
  unreadable : Loading I
  foreign : Loading I
  begins : Run I → Loading I

-- wasmtime, as `try_load` and `GuestRuntime` use it. An instance is a store with its memory.
pub record Wasm : Type 1 where
  pub Instance : Type 0
  pub load : Bytes → Loading Instance
  pub has_exports : Instance → Bool
  pub write : ℕ → Bytes → Instance → Option Instance
  pub start : ℕ → ℕ → ℕ → ℕ → Instance → Run Instance
  pub events : ℕ → Instance → Run Instance
  pub has_frame : Instance → Bool
  pub frame : ℕ → Instance → Run Instance

pub record GuestRuntime (I Q K : Type 0) : Type 0 where
  pub inst : I
  pub shared : Shared Q K

pub data Loaded (I Q K : Type 0) : Type 0 where
  failed : Loaded I Q K
  not_gwb : Loaded I Q K
  loaded : GuestRuntime I Q K → Loaded I Q K

-- The answer of the guest, if it did not trap, the guest after the call, and the effects.
abbrev pub Ran : Type 0 → Type 0 → Type 0 → Type 0
Ran I Q K = Option ℕ × GuestRuntime I Q K × List Effect

unfoldable pub exec : {I Q K : Type 0} → Run I → Shared Q K → Ran I Q K
exec (returns value inst) g = (some value, record { inst = inst; shared = g }, [])
exec (traps inst) g = (none, record { inst = inst; shared = g }, [])
exec (asks mem call next) g =
    let (value, g', out) = host_call mem call g in
    let (answer, rt, later) = exec (next value) g' in (answer, rt, out ++ later)

abbrev pub is_gesture : ℕ → Bool
is_gesture kind = kind == Kind.click || kind == Kind.key_down

abbrev pub with_gesture : {I Q K : Type 0} → Bool → GuestRuntime I Q K → GuestRuntime I Q K
with_gesture active rt = record rt { shared = record rt.shared { gesture_active = active } }

-- The nearest node of the chain whose id is subscribed to the kind.
unfoldable pub find_listener : NodeMaps → ℕ → List ℕ → Option ℕ
find_listener maps kind [] = none
find_listener maps kind (nid ∷ chain) = elim (get maps.rev nid) [
  | none ↦ find_listener maps kind chain
  | some gid ↦
      if contains maps.listeners (gid, kind) then some gid else find_listener maps kind chain
]

-- What the engine is told after an event.
pub record Verdict : Type 0 where
  pub prevent_default : Bool
  pub stop_propagation : Bool
  pub request_redraw : Bool

abbrev pub untouched : Verdict
untouched = record { prevent_default = false; stop_propagation = false; request_redraw = false }

abbrev pub has_batches : {I Q K : Type 0} → GuestRuntime I Q K → Bool
has_batches rt = elim rt.shared.batches [ [] ↦ false | ops ∷ more ↦ true ]

-- What the guest's answer asks of the engine; a guest that trapped asks nothing.
unfoldable pub verdict : {I Q K : Type 0} → Bool → Option ℕ → GuestRuntime I Q K → Verdict
verdict cancelable none rt = untouched
verdict cancelable (some flags) rt = record {
  prevent_default = cancelable && not (bit_and flags 1 == 0);
  stop_propagation = not (bit_and flags 2 == 0);
  request_redraw = has_batches rt;
}

module _ (W : Wasm) {Q K : Type 0} where
  unfoldable pub checked : Ran W.Instance Q K → Loaded W.Instance Q K × List Effect
  checked (none, rt, out) = (failed, out)
  checked (some version, rt, out) =
      if version / 2 ^ 16 == 1 && W.has_exports rt.inst then (loaded rt, out) else (failed, out)

  -- The state of a guest whose module begins to run.
  abbrev pub new_shared : K → Bytes → ℕ → Map Bytes ServiceEntry → Set Bytes → Shared Q K
  new_shared app_key app_key_b64 tab_id services links = record {
    atoms = well_known_atoms;
    batches = [];
    event_region = (0, 0);
    next_fetch_id = 0;
    frame_requested = false;
    window_id = none;
    services = services;
    next_rpc_id = 0;
    session_token = none;
    app_key = app_key;
    app_key_b64 = app_key_b64;
    links = links;
    gesture_active = false;
    tab_id = tab_id;
  }

  unfoldable pub load_module : Loading W.Instance → Shared Q K → Loaded W.Instance Q K × List Effect
  unfolding exec checked
  load_module unreadable g = (failed, [])
  load_module foreign g = (not_gwb, [])
  load_module (begins run) g = checked (exec run g)

  unfoldable pub try_load :
      K
      → Bytes
      → Bytes
      → ℕ
      → Map Bytes ServiceEntry
      → Set Bytes
      → Loaded W.Instance Q K × List Effect
  unfolding load_module
  try_load app_key app_key_b64 path tab_id services links =
      load_module (W.load path) (new_shared app_key app_key_b64 tab_id services links)

  -- A guest without a usable event region is not started.
  unfoldable pub start : ℕ → ℕ → ℕ → ℕ → GuestRuntime W.Instance Q K → Ran W.Instance Q K
  unfolding exec
  start w h scale flags self =
      let (answer, rt, out) = exec (W.start w h scale flags self.inst) self.shared in
      (if ltb rt.shared.event_region.1 64 then none else answer, rt, out)

  unfoldable pub deliver_event :
      EventOut → ℕ → ℕ → ℕ → ℕ → GuestRuntime W.Instance Q K → Ran W.Instance Q K
  unfolding exec event_record
  deliver_event eo flags target listener ts self =
      let (ptr, cap) = self.shared.event_region in
      if ltb cap (40 + padded (length (text_of eo)))
      then (none, self, [])
      else (elim (W.write ptr (event_record eo flags target listener ts) self.inst) [
        | none ↦ (none, self, [])
        | some inst ↦ exec (W.events 1 inst) self.shared
      ])

  unfoldable pub deliver_frame : ℕ → GuestRuntime W.Instance Q K → Ran W.Instance Q K
  unfolding exec
  deliver_frame dt_ms self =
      if W.has_frame self.inst
      then exec (W.frame dt_ms self.inst) self.shared
      else (some 0, self, [])

  -- The call of the guest, with the gesture flag up if it answers a click or a key.
  unfoldable pub dispatch :
      EventOut → ℕ → ℕ → ℕ → ℕ → GuestRuntime W.Instance Q K → Ran W.Instance Q K
  unfolding deliver_event
  dispatch eo flags target listener ts rt =
      if is_gesture eo.kind
      then (let (answer, rt', out) =
            deliver_event eo flags target listener ts (with_gesture true rt) in
          (answer, with_gesture false rt', out))
      else deliver_event eo flags target listener ts rt

  -- The part of `handle_event` behind the host's own chrome, for an event with a record `eo`.
  unfoldable pub handle_guest_event :
      NodeMaps
      → List ℕ
      → ℕ
      → Bool
      → EventOut
      → ℕ
      → GuestRuntime W.Instance Q K
      → Verdict × GuestRuntime W.Instance Q K × List Effect
  unfolding find_listener dispatch
  handle_guest_event maps chain event_target cancelable eo ts rt =
      elim (find_listener maps eo.kind chain) [
        | none ↦ (untouched, rt, [])
        | some listener ↦
            let target : ℕ = elim (get maps.rev event_target) [ none ↦ listener | some g ↦ g ] in
            let (answer, rt', out) =
              dispatch eo (if cancelable then 1 else 0) target listener ts rt in
            (verdict cancelable answer rt', rt', out)
      ]
