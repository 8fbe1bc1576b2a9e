-- ===== src/Tests/Ids.antt =====
-- Short ids of the sample session.
use hypr_taskspace.Prelude.{◌≡◌, refl, [], ◌∷◌, inl}
use hypr_taskspace.Prelude.Text.{Text_eq, codes}
use hypr_taskspace.Prelude.Dict.{get}
use hypr_taskspace.Tests.Sample.{session, billing, search_page}
use hypr_taskspace.TaskIds.{lookup_task, short_task_id, found}
use hypr_taskspace.TaskIds.Lookup.{lookup-short_task_id}

short_ids :
    (short_task_id session (codes "t3fa0") ≡ codes "t3f")
    × (short_task_id session (codes "t3b71") ≡ codes "t3b")
unfolding short_task_id get
short_ids = (refl, refl)

lookup-short_task_id_example :
    lookup_task session (short_task_id session (codes "t3fa0")) ≡ found billing
unfolding short_task_id get
lookup-short_task_id_example =
    lookup-short_task_id session billing [] (search_page ∷ [])
      (record {
        keyed = refl;
        listed = refl;
        differs = tt;
        differs_after = (refl, tt);
        is_live = refl;
      })
      refl (inl refl)
