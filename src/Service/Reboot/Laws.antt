-- ===== src/Service/Reboot/Laws.antt =====
-- crates/tsk-core/src/service.rs: in which order the leftover tasks are archived, and when none is.
use hypr_taskspace.Prelude.{
  ℕ, zero, suc, ◌+◌, true, false, Option, none, some, Bool-cases, Option-cases, inl, inr, map, List,
  [], ◌∷◌, ◌≡◌, refl, arith, if◌then◌else◌, head?, Member, get_elem?, position_sound,
  position-Member,
}
use hypr_taskspace.Prelude.Text.{Text, Text_eq, text_eq, text_eq_iff}
use hypr_taskspace.Config.{TskConfig}
use hypr_taskspace.Models.{Task}
use hypr_taskspace.Host.{System}
use hypr_taskspace.Service.{Daemon, done}
use hypr_taskspace.Service.Reboot.{
  set_at, swap_first, current_first, is_new_boot, archive_on_new_boot,
  archive_active_tasks_if_new_boot, archive_leftover, archive_each, order_ids,
}
use hypr_taskspace.Service.Queries.{list_active_tasks}
use hypr_taskspace.Valid.Archive.{Result-cases}

-- How often an id is in the list.
unfoldable pub count : List Text → Text → ℕ
count [] a = 0
count (b ∷ bs) a = if text_eq b a then suc (count bs a) else count bs a

count-set_at :
    (bs : List Text) (i : ℕ) (old new a : Text)
    → get_elem? bs i ≡ some old
    → count (set_at bs i new) a + (if text_eq old a then 1 else 0)
      ≡ count bs a + (if text_eq new a then 1 else 0)
unfolding count set_at
count-set_at [] i old new a h = ground arith
count-set_at (b ∷ bs) zero old new a h = ground arith
count-set_at (b ∷ bs) (suc i) old new a h = ground (arith, count-set_at bs i old new a)

count-swap_first :
    (ids : List Text) (i : ℕ) (current a : Text)
    → get_elem? ids i ≡ some current
    → count (swap_first ids i current) a ≡ count ids a
unfolding count swap_first
count-swap_first [] i current a h = refl
count-swap_first (b ∷ bs) zero current a h = refl
count-swap_first (b ∷ bs) (suc i) current a h = ground (arith, count-set_at bs i current b a)

head-swap_first :
    (ids : List Text) (i : ℕ) (current : Text)
    → get_elem? ids i ≡ some current
    → head? (swap_first ids i current) ≡ some current
unfolding swap_first
head-swap_first [] i current h = ground arith
head-swap_first (b ∷ bs) zero current h = h
head-swap_first (b ∷ bs) (suc i) current h = refl

-- If the current task is among the leftover ones, the order in which they are archived starts with
-- it, and has each id as often as the list has.
pub current_first-reorders :
    (current : Text) (ids : List Text) (a : Text)
    → Member current ids
    → (head? (current_first (some current) ids) ≡ some current)
      × (count (current_first (some current) ids) a ≡ count ids a)
unfolding current_first
current_first-reorders current ids a m =
    let (i, found) = position-Member m in
    let at = position_sound ids current i found in
    (rw found (head-swap_first ids i current at), rw found (count-swap_first ids i current a at))

is_new_boot-same :
    (previous : Option Text) (boot_id : Text)
    → is_new_boot previous boot_id ≡ false
    → previous ≡ some boot_id
unfolding is_new_boot
is_new_boot-same none boot_id h = ground arith
is_new_boot-same (some id) boot_id h = ground (arith, text_eq_iff id boot_id)

-- What the program relies on of the file with the id of the last boot: it holds what was written, and
-- reading does not change it.
pub record KeepsBootId (h : System) (boot_id : Text) : Type 0 where
  pub read-write :
      (w : h.World)
      → (h.write_stored_boot_id boot_id w).0 ≡ true
      → (h.read_stored_boot_id (h.write_stored_boot_id boot_id w).1).0 ≡ some (some boot_id)
  pub read-read :
      (w : h.World)
      → (h.read_stored_boot_id (h.read_stored_boot_id w).1).0 ≡ (h.read_stored_boot_id w).0

module _ (h : System) (config : TskConfig) (boot_id : Text) where
  open h use {World, read_stored_boot_id}

  -- The id of this boot is in the file.
  abbrev IsNoted : Daemon World → Type 0
  IsNoted d = (read_stored_boot_id d.env.world).0 ≡ some (some boot_id)

  noted-rests :
      (d : Daemon World)
      → IsNoted d
      → ((archive_active_tasks_if_new_boot h config boot_id d).0 ≡ done [])
        × ((archive_active_tasks_if_new_boot h config boot_id d).1.stored ≡ d.stored)
  unfolding archive_active_tasks_if_new_boot archive_on_new_boot is_new_boot
  noted-rests d same = ground (arith, text_eq_iff boot_id boot_id)

  archive_leftover-IsNoted :
      (keeps : KeepsBootId h boot_id) (tasks : List Task) (archived : List Text) (d : Daemon World)
      → (archive_leftover h config boot_id tasks d).0 ≡ done archived
      → IsNoted (archive_leftover h config boot_id tasks d).1
  unfolding archive_leftover
  archive_leftover-IsNoted keeps tasks archived d succeeds =
      let (ids, d1) = order_ids h config (map (λ t. t.id) tasks) d in
      let (listed, d2) = archive_each h config ids d1 in
      ground (arith, keeps.read-write d2.env.world)

  archive_on_new_boot-IsNoted :
      (keeps : KeepsBootId h boot_id) (archived : List Text) (d : Daemon World)
      → (archive_on_new_boot h config boot_id true d).0 ≡ done archived
      → IsNoted (archive_on_new_boot h config boot_id true d).1
  unfolding archive_on_new_boot
  archive_on_new_boot-IsNoted keeps archived d succeeds =
      let (listed, d1) = list_active_tasks h config d in
      elim (Result-cases listed) [
        | inl (tasks, found) ↦ ground (arith, archive_leftover-IsNoted keeps tasks archived d1)
        | inr (inl (e, stopped)) ↦ ground arith
        | inr (inr stopped) ↦ ground arith
      ]

  archive_if_new-IsNoted :
      (keeps : KeepsBootId h boot_id) (archived : List Text) (d : Daemon World)
      → (archive_active_tasks_if_new_boot h config boot_id d).0 ≡ done archived
      → IsNoted (archive_active_tasks_if_new_boot h config boot_id d).1
  unfolding archive_active_tasks_if_new_boot archive_on_new_boot
  archive_if_new-IsNoted keeps archived d succeeds =
      let (stored, w1) = read_stored_boot_id d.env.world in
      let d1 : Daemon World = record d { env = record d.env { world = w1 } } in
      let again = keeps.read-read d.env.world in
      elim (Option-cases stored) [
        | inl unreadable ↦ ground arith
        | inr (previous, readable) ↦ elim (Bool-cases (is_new_boot previous boot_id)) [
          | inl new ↦ ground (arith, archive_on_new_boot-IsNoted keeps archived d1)
          | inr same ↦ ground (arith, again, is_new_boot-same previous boot_id same)
        ]
      ]

  -- After the archive on a new boot answers without a failure, the file holds the id of this boot,
  -- and doing it again archives nothing and leaves the stored session as it was. Condition: the
  -- file with the id holds what was written, and reading does not change it.
  pub archive_if_new_boot-once :
      (keeps : KeepsBootId h boot_id) (archived : List Text) (d : Daemon World)
      → (archive_active_tasks_if_new_boot h config boot_id d).0 ≡ done archived
      → let after = (archive_active_tasks_if_new_boot h config boot_id d).1 in
        ((read_stored_boot_id after.env.world).0 ≡ some (some boot_id))
        × ((archive_active_tasks_if_new_boot h config boot_id after).0 ≡ done [])
        × ((archive_active_tasks_if_new_boot h config boot_id after).1.stored ≡ after.stored)
  archive_if_new_boot-once keeps archived d succeeds =
      let noted = archive_if_new-IsNoted keeps archived d succeeds in
      let (nothing, kept) =
        noted-rests (archive_active_tasks_if_new_boot h config boot_id d).1 noted in
      (noted, nothing, kept)
