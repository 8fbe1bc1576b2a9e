-- ===== src/Tests/Events.antt =====
-- Workspace events from outside, in the sample session.
use hypr_taskspace.Prelude.{ℕ, map, ltb, if◌then◌else◌, List, ◌++◌, true, ◌≡◌, refl, ◌⊎◌, [], ◌∷◌}
use hypr_taskspace.Prelude.Text.{Text, codes}
use hypr_taskspace.Workspaces.{is_managed_workspace_name}
use hypr_taskspace.ContextSync.Context.{context, context_of}
use hypr_taskspace.Nav.Hotplug.{reconcile_monitor_topology}
use hypr_taskspace.Nav.Hotplug.Laws.{reconcile-context}
use hypr_taskspace.Nav.Switch.{ok, err, sync_taskspace_from_external}
use hypr_taskspace.Nav.Switch.External.{sync_external-context}
use hypr_taskspace.Service.{apply_external_workspace}
use hypr_taskspace.Service.External.{external-context}
use hypr_taskspace.HyprlandEvents.{events_of, read_chunks, take_lines}
use hypr_taskspace.HyprlandEvents.Chunks.{join_chunks, events-chunks}
use hypr_taskspace.Tests.Sample.{desk, session, start, settings, daemon}

external-context_example :
    (context (apply_external_workspace desk settings (codes "t3b71-2") daemon).1.env.session
      ≡ context session)
    ⊎ ((true ≡ true)
        × (is_managed_workspace_name session (codes "t3b71-2") ≡ true)
        × (context (apply_external_workspace desk settings (codes "t3b71-2") daemon).1.env.session
            ≡ context_of session (codes "t3b71-2")))
external-context_example = external-context desk settings (codes "t3b71-2") daemon

sync_external-context_example :
    (((sync_taskspace_from_external desk
          (codes "t3b71-2")
          (codes "1" ∷ [])
          (codes "task:t3fa0")
          start).0
        ≡ ok)
      × (context
            (sync_taskspace_from_external desk
              (codes "t3b71-2")
              (codes "1" ∷ [])
              (codes "task:t3fa0")
              start).1.session
          ≡ context_of session (codes "t3b71-2")))
    ⊎ ((e : Text) × ((sync_taskspace_from_external desk
            (codes "t3b71-2")
            (codes "1" ∷ [])
            (codes "task:t3fa0")
            start).0
          ≡ err e)
        × (context
              (sync_taskspace_from_external desk
                (codes "t3b71-2")
                (codes "1" ∷ [])
                (codes "task:t3fa0")
                start).1.session
            ≡ context session))
sync_external-context_example =
    sync_external-context desk (codes "t3b71-2") (codes "1" ∷ []) (codes "task:t3fa0") start refl

reconcile-context_example :
    context (reconcile_monitor_topology desk start).1.session ≡ context session
reconcile-context_example = reconcile-context desk start

-- One event, cut in two, and the start of the next one.
abbrev reads : List (List ℕ)
reads = codes "works" ∷ (codes "pacev2>>3,t3fa0-2" ++ 10 ∷ codes "open") ∷ []

-- ASCII; any other byte is not UTF-8 by itself.
abbrev ascii : List ℕ → Text
ascii bytes = map (λ byte. if ltb byte 128 then byte else 65533) bytes

events :
    events_of (λ s. s) (read_chunks ascii [] reads).0
    ≡ (codes "workspacev2", codes "3,t3fa0-2") ∷ []
unfolding events_of read_chunks
events = refl

events-chunks_example :
    events_of (λ s. s) (read_chunks ascii [] reads).0
    ≡ events_of (λ s. s) (take_lines (ascii (join_chunks reads))).0
events-chunks_example = events-chunks ascii (λ s. s) reads refl
