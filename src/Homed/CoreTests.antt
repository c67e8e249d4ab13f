-- ===== src/Homed/CoreTests.antt =====
-- homed/core.py: a budget of two requests, a home that is asked, a table of two handles.
use astral_project.Base.{
  ◌≢◌, refl, ℕ, ◌≡◌, true, false, [], ◌∷◌, arith, nat_eq, string_eq, list_eq, option_eq, pair_eq,
  ok, contains, Bytes, codes, pos, int_eq,
}
use astral_project.Homed.Core.{
  RequestBudget, RequestLease, InodeRecord, FileHandleTable, EmptyProjectedHome, allocate,
  cancel_lease, handle_release, home_forget, home_lookup, make_budget, open_lease, budget_release,
  new_home, reserve, root_inode, is_dots, reserve_size, root_record, home_getattr, home_open,
}
use astral_project.Homed.Leases.{Leased, begins, opens, cancels, Balanced, Leased-Balanced}
use astral_project.Homed.Empty.{
  HomeRun, starts, looks, forgets, HandlesBelow, allocate_fresh, nothing_reachable,
}

abbrev budget_of_two : RequestBudget
budget_of_two = record { max_requests = 2; max_memory = 10; permits = 2; memory = 0 }

abbrev lease_of_four : RequestLease
lease_of_four = record { size = pos 4; active = true }

abbrev leased_four : RequestBudget
leased_four = record budget_of_two { permits = 1; memory = 4 }

made : make_budget (pos 2) (pos 10) ≡ ok budget_of_two
unfolding make_budget
made = refl

opened : open_lease (pos 4) budget_of_two ≡ (ok lease_of_four, leased_four)
unfolding open_lease reserve reserve_size
opened = refl

given_back :
    cancel_lease lease_of_four leased_four
    ≡ (record lease_of_four { active = false }, budget_of_two)
unfolding cancel_lease budget_release
given_back = refl

run_back : Leased budget_of_two (record lease_of_four { active = false } ∷ [])
run_back =
    cancels lease_of_four [] [] (opens (pos 4) (begins (pos 2) (pos 10) made) opened) given_back

Leased-Balanced_example : Balanced budget_of_two (record lease_of_four { active = false } ∷ [])
Leased-Balanced_example =
    Leased-Balanced budget_of_two (record lease_of_four { active = false } ∷ []) run_back

abbrev asked_home : EmptyProjectedHome
asked_home = home_forget 1 (pos 2) ((home_lookup 1 (codes "..") new_home).1)

run_home : HomeRun asked_home
run_home = forgets 1 (pos 2) (looks 1 (codes "..") starts)

nothing_reachable_example :
    ((parent : ℕ) (name : Bytes) (r : InodeRecord)
      → (home_lookup parent name asked_home).0 ≡ ok r
      → (parent ≡ root_inode) × (is_dots name ≡ true) × (r ≡ root_record))
    × ((inode : ℕ) (r : InodeRecord)
        → home_getattr inode asked_home ≡ ok r
        → (inode ≡ root_inode) × (r ≡ root_record))
    × ((inode flags handle : ℕ) → (home_open inode flags asked_home).0 ≢ ok handle)
nothing_reachable_example = nothing_reachable asked_home run_home

abbrev table : FileHandleTable
table = record { next = 3; handles = 1 ∷ [] }

abbrev table_after : FileHandleTable
table_after = record { next = 4; handles = 3 ∷ 1 ∷ [] }

allocates : allocate 7 table ≡ (ok 3, table_after)
unfolding allocate
allocates = refl

allocate_fresh_example :
    (contains table.handles 3 ≡ false)
    × (contains table_after.handles 3 ≡ true)
    × (contains (handle_release 3 table_after).handles 3 ≡ false)
    × HandlesBelow table_after
allocate_fresh_example = allocate_fresh 7 table table_after 3 (omega arith, tt) allocates
