-- ===== src/Valid/Windows.antt =====
-- crates/tsk-core/src/window_registry.rs touches neither the tasks nor the context.
use hypr_taskspace.Prelude.{
  ℕ, Bool, true, false, List, [], ◌∷◌, ◌≡◌, refl, arith, Option-cases, inl, inr, ◌∙◌,
}
use hypr_taskspace.Prelude.Dict.{get}
use hypr_taskspace.Models.{SessionState}
use hypr_taskspace.Host.{System, Env, HyprWindow, asked}
use hypr_taskspace.WindowRegistry.{
  RestoreMove, sync_client, sync_clients, sync_windows_from, record_move, sync_window_registry,
  apply_moves, restore_clients, restore_running, restore_windows,
}
use hypr_taskspace.Valid.{is_valid}

sync_client-is_valid :
    (client : HyprWindow) (state : SessionState)
    → is_valid (sync_client client state) ≡ is_valid state
unfolding sync_client is_valid
sync_client-is_valid client state = ground arith

sync_clients-is_valid :
    (clients : List HyprWindow) (state : SessionState)
    → is_valid (sync_clients clients state) ≡ is_valid state
unfolding sync_clients
sync_clients-is_valid [] state = refl
sync_clients-is_valid (client ∷ clients) state =
    sync_clients-is_valid clients (sync_client client state) ∙ sync_client-is_valid client state

windows_from-is_valid :
    (clients : List HyprWindow) (state : SessionState)
    → is_valid (sync_windows_from clients state) ≡ is_valid state
unfolding sync_windows_from is_valid
windows_from-is_valid clients state = sync_clients-is_valid clients _

record_move-is_valid :
    (m : RestoreMove) (state : SessionState) → is_valid (record_move m state) ≡ is_valid state
unfolding record_move is_valid
record_move-is_valid m state = elim (Option-cases (get state.windows m.address)) [
  | inl unknown ↦ ground arith
  | inr (entry, found) ↦ ground arith
]

module _ (h : System) where
  open h use {World}

  pub sync_window_registry-is_valid :
      (s : Env World) → is_valid (sync_window_registry h s).1.session ≡ is_valid s.session
  unfolding sync_window_registry
  sync_window_registry-is_valid s =
      let listed = (h.get_clients (h.available s.world).1).0 in
      elim (Option-cases listed) [
        | inl unknown ↦ ground arith
        | inr (clients, found) ↦ ground (arith, windows_from-is_valid clients s.session)
      ]

  apply_moves-is_valid :
      (moves : List RestoreMove) (s : Env World)
      → is_valid (apply_moves h moves s).1.session ≡ is_valid s.session
  unfolding apply_moves
  apply_moves-is_valid [] s = refl
  apply_moves-is_valid (m ∷ moves) s =
      apply_moves-is_valid moves _ ∙ record_move-is_valid m s.session

  restore_clients-is_valid :
      (dry_run : Bool) (synced : ℕ) (clients : List HyprWindow) (s : Env World)
      → is_valid (restore_clients h dry_run synced clients s).1.session ≡ is_valid s.session
  unfolding restore_clients
  restore_clients-is_valid false synced clients s = apply_moves-is_valid _ s
  restore_clients-is_valid true synced clients s = refl

  restore_running-is_valid :
      (dry_run : Bool) (synced : ℕ) (s : Env World)
      → is_valid (restore_running h dry_run synced s).1.session ≡ is_valid s.session
  unfolding restore_running
  restore_running-is_valid dry_run synced s =
      let s1 = asked h.available s in
      let listed = (h.get_clients s1.world).0 in
      let s2 = asked h.get_clients s1 in
      elim (Option-cases listed) [
        | inl unknown ↦ ground arith
        | inr (clients, found) ↦ ground (arith, restore_clients-is_valid dry_run synced clients s2)
      ]

  pub restore_windows-is_valid :
      (dry_run : Bool) (s : Env World)
      → is_valid (restore_windows h dry_run s).1.session ≡ is_valid s.session
  unfolding restore_windows
  restore_windows-is_valid dry_run s =
      let synced = sync_window_registry h s in
      elim (Option-cases synced.0) [
        | inl unknown ↦ ground (arith, sync_window_registry-is_valid s)
        | inr (n, found) ↦
            ground
              (arith, sync_window_registry-is_valid s, restore_running-is_valid dry_run n synced.1)
      ]
