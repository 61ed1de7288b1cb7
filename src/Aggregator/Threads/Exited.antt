-- ===== src/Aggregator/Threads/Exited.antt =====
-- A thread whose process the resolver knows is not marked as exited.
use netmon.Base.{
  ℕ, ◌≡◌, ◌≢◌, refl, ap, List, [], ◌∷◌, none, some, Bool-cases, Option-cases, inl, inr, nat_eq,
  ◌==◌,
}
use netmon.HashMap.{HashMap, get}
use netmon.Capture.Types.{FlowRecord}
use netmon.Resolver.Types.{ProcessInfo, ResolvedConnection}
use netmon.Resolver.Api.{ResolverApi}
use netmon.Aggregator.Types.{ThreadKey, ThreadStats, thread_key_eq}
use netmon.Aggregator.Record.{Counters, thread_key, process_record}
use netmon.Aggregator.Threads.{marked_name, mark_entry, mark_exited_threads}

module _ (api : ResolverApi) where
  open api use {Resolver, resolve_flow_owner, process_by_pid, owner_known, known_stays}

  abbrev pub Knows : ℕ → ℕ → Resolver → Type 0
  Knows now pid r = (process_by_pid now pid r).0 ≢ none

  Knows-after :
      (now pid : ℕ) (key : ThreadKey) (s : ThreadStats) (r : Resolver)
      → Knows now pid r
      → Knows now pid (mark_entry api now key s r).1
  unfolding mark_entry
  Knows-after now pid key s r h = elim (Bool-cases (nat_eq key.pid 0)) [
    | inl y ↦ rw y h
    | inr n ↦ rw n (known_stays now pid key.pid r h)
  ]

  mark_entry_known :
      (now : ℕ) (key : ThreadKey) (s : ThreadStats) (r : Resolver)
      → Knows now key.pid r
      → (mark_entry api now key s r).0 ≡ s
  unfolding mark_entry marked_name
  mark_entry_known now key s r h = elim (Bool-cases (nat_eq key.pid 0)) [
    | inl y ↦ rw y refl
    | inr n ↦ elim (Option-cases (process_by_pid now key.pid r).0) [
      | inl absent ↦ absurd (h absent)
      | inr (info, present) ↦ rw (n, present) refl
    ]
  ]

  get-mark_known :
      (now : ℕ) (key : ThreadKey) (m : HashMap ThreadKey ThreadStats) (r : Resolver)
      → Knows now key.pid r
      → get key (mark_exited_threads api now m r).0 ≡ get key m
  unfolding mark_exited_threads get
  get-mark_known now key [] r h = refl
  get-mark_known now key ((j, s) ∷ m) r h = elim (Bool-cases (j == key)) [
    | inl y ↦
        let p : j ≡ key = (thread_key_eq.eqb_iff j key).0 y in
        rw y (ap some (mark_entry_known now j s r (rw p h)))
    | inr n ↦
        rw n
          (get-mark_known now key m (mark_entry api now j s r).1 (Knows-after now key.pid j s r h))
  ]

  -- The entry of a thread whose record the resolver has just attributed is not changed when exited
  -- threads are marked at that time: the same resolver cannot report an owner and take it for gone.
  pub process_record-mark_exited_threads :
      (now : ℕ) (r : FlowRecord) (cache : List ResolvedConnection) (resolver : Resolver)
      (c : Counters) (info : ProcessInfo)
      → (resolve_flow_owner now r.key resolver).0 ≡ some info
      → let after = process_record api now r cache (resolver, c) in
        get (thread_key info) (mark_exited_threads api now after.1.threads after.0).0
        ≡ get (thread_key info) after.1.threads
  process_record-mark_exited_threads now r cache resolver c info h =
      get-mark_known now (thread_key info) _ _
        (unfold process_record in owner_known now r.key resolver info h)
