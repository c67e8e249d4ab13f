-- ===== src/Homed/Empty.antt =====
-- homed/core.py: the empty projected home gives out nothing but its root, and handles are fresh.
use astral_project.Base.{
  ℕ, suc, ◌<◌, ◌≡◌, refl, ap, ◌≢◌, inl, inr, true, false, not, List, [], ◌∷◌, arith, Bool-cases,
  ◌==◌, ==_iff, ==_refl, nat_eq, string_eq, list_eq, option_eq, pair_eq, Result, ok, err,
  raise_if-eq-ok, Result-cases, filter, All, All-map, contains, Bytes, ℤ, pos, negsuc, int_eq,
}
use astral_project.Base.Dict.{get, ==_false_sym}
use astral_project.Homed.Core.{
  EmptyProjectedHome, InodeTable, InodeRecord, FileHandleTable, Errno, estale, eisdir, home_open,
  inode_forget, inode_getattr, new_home, root_inode, home_getattr, home_lookup, root_record, enoent,
  home_release, home_forget, home_close, allocate, handle_release, is_dots, lookup_root, close_all,
}

-- The homes that calls of its methods lead to.
pub data HomeRun : EmptyProjectedHome → Type 0 where
  starts : HomeRun new_home
  looks :
      {h : EmptyProjectedHome} (parent : ℕ) (name : Bytes)
      → HomeRun h
      → HomeRun ((home_lookup parent name h).1)
  opens :
      {h : EmptyProjectedHome} (inode flags : ℕ) → HomeRun h → HomeRun ((home_open inode flags h).1)
  releases : {h : EmptyProjectedHome} (handle : ℕ) → HomeRun h → HomeRun (home_release handle h)
  forgets :
      {h : EmptyProjectedHome} (inode : ℕ) (count : ℤ)
      → HomeRun h
      → HomeRun (home_forget inode count h)
  closes : {h : EmptyProjectedHome} → HomeRun h → HomeRun (home_close h)

abbrev pub HoldsRoot : EmptyProjectedHome → Type 0
HoldsRoot h = (h.inodes.records ≡ (root_inode, root_record) ∷ []) × (h.handles.handles ≡ [])

getattr_root :
    (inode : ℕ) (t : InodeTable) (r : InodeRecord)
    → t.records ≡ (root_inode, root_record) ∷ []
    → inode_getattr inode t ≡ ok r
    → (inode ≡ root_inode) × (r ≡ root_record)
unfolding inode_getattr get
getattr_root inode t r e h = elim (Bool-cases (inode == root_inode)) [
  | inl t' ↦
      let h' : ◌≡◌ {A = Result Errno InodeRecord} (ok root_record) (ok r) =
        rw (inode_getattr, e, t') at h in
      ((==_iff inode root_inode).0 t', cc)
  | inr t' ↦
      let h' : ◌≡◌ {A = Result Errno InodeRecord} (err enoent) (ok r) =
        rw (inode_getattr, e, t') at h in
      cc
]

forget-records :
    (inode : ℕ) (count : ℤ) (t : InodeTable)
    → t.records ≡ (root_inode, root_record) ∷ []
    → (inode_forget inode count t).records ≡ (root_inode, root_record) ∷ []
unfolding inode_forget get
forget-records inode (negsuc n) t e = e
forget-records inode (pos n) t e = elim (Bool-cases (inode == root_inode)) [
  | inl t' ↦ rw (inode_forget, e, t') (rw t' e)
  | inr t' ↦ rw (inode_forget, e, t') e
]

-- No open succeeds: the only inode is a directory.
open_fails :
    (inode flags : ℕ) (h : EmptyProjectedHome)
    → HoldsRoot h
    → ((handle : ℕ) → (home_open inode flags h).0 ≢ ok handle) × ((home_open inode flags h).1 ≡ h)
unfolding home_open home_getattr
open_fails inode flags h holds = elim (Result-cases (home_getattr inode h)) [
  | inr (e, q) ↦ rw (home_open, q) (λ handle k. cc, refl)
  | inl (r, q) ↦
      let (is_open, found) = raise_if-eq-ok h.is_closed estale (inode_getattr inode h.inodes) q in
      let (_, root) = getattr_root inode h.inodes r holds.0 found in
      rw (home_open, q, root) (λ handle k. cc, refl)
]

lookup-HoldsRoot :
    (parent : ℕ) (name : Bytes) (h : EmptyProjectedHome)
    → HoldsRoot h
    → HoldsRoot ((home_lookup parent name h).1)
      × ((r : InodeRecord)
          → (home_lookup parent name h).0 ≡ ok r
          → (parent ≡ root_inode) × (is_dots name ≡ true) × (r ≡ root_record))
unfolding home_lookup lookup_root
lookup-HoldsRoot parent name h holds = elim (Bool-cases h.is_closed) [
  | inl c ↦ rw (home_lookup, c) (holds, λ r k. cc)
  | inr c ↦ elim (Bool-cases (parent == root_inode)) [
    | inr p ↦ rw (home_lookup, c, p) (holds, λ r k. cc)
    | inl p ↦ elim (Bool-cases (is_dots name)) [
      | inr d ↦ rw (home_lookup, c, p, d) (holds, λ r k. cc)
      | inl d ↦
          rw (home_lookup, c, p, d)
            (
              holds,
              λ r k. (
                (==_iff parent root_inode).0 p,
                refl,
                (getattr_root root_inode h.inodes r holds.0 k).1,
              ),
            )
    ]
  ]
]

run-HoldsRoot : (h : EmptyProjectedHome) → HomeRun h → HoldsRoot h
unfolding home_release handle_release home_forget home_close close_all filter
run-HoldsRoot h starts = (refl, refl)
run-HoldsRoot _ (looks {h = h} parent name run) =
    (lookup-HoldsRoot parent name h (run-HoldsRoot h run)).0
run-HoldsRoot _ (opens {h = h} inode flags run) =
    let holds = run-HoldsRoot h run in rw ((open_fails inode flags h holds).1) holds
run-HoldsRoot _ (releases {h = h} handle run) =
    let (records, handles) = run-HoldsRoot h run in (records, rw handles refl)
run-HoldsRoot _ (forgets {h = h} inode count run) =
    let (records, handles) = run-HoldsRoot h run in
    (forget-records inode count h.inodes records, handles)
run-HoldsRoot _ (closes {h = h} run) = ((run-HoldsRoot h run).0, refl)

-- In every state of an empty projected home, a lookup succeeds only for the names of the root below
-- the root and gives the root, an attribute is only that of the root, and no file can be opened.
pub nothing_reachable :
    (h : EmptyProjectedHome)
    → HomeRun h
    → ((parent : ℕ) (name : Bytes) (r : InodeRecord)
        → (home_lookup parent name h).0 ≡ ok r
        → (parent ≡ root_inode) × (is_dots name ≡ true) × (r ≡ root_record))
      × ((inode : ℕ) (r : InodeRecord)
          → home_getattr inode h ≡ ok r
          → (inode ≡ root_inode) × (r ≡ root_record))
      × ((inode flags handle : ℕ) → (home_open inode flags h).0 ≢ ok handle)
unfolding home_getattr
nothing_reachable h run =
    let holds = run-HoldsRoot h run in
    (
      λ parent name r k. (lookup-HoldsRoot parent name h holds).1 r k,
      λ inode r k.
          let (is_open, found) =
            raise_if-eq-ok h.is_closed estale (inode_getattr inode h.inodes) k in
          getattr_root inode h.inodes r holds.0 found,
      λ inode flags handle. (open_fails inode flags h holds).0 handle,
    )

-- Every handle is below the next one.
abbrev pub HandlesBelow : FileHandleTable → Type 0
HandlesBelow t = All (λ h. h < t.next) t.handles

below_absent : (n : ℕ) (hs : List ℕ) → All (λ h. h < n) hs → contains hs n ≡ false
unfolding contains
below_absent n [] b = refl
below_absent n (h ∷ hs) b =
    let apart : (n == h) ≡ false = ground (arith, b.0) in rw apart (below_absent n hs b.1)

absent_after : (x : ℕ) (hs : List ℕ) → contains (filter (λ h. not (h == x)) hs) x ≡ false
unfolding filter contains
absent_after x [] = refl
absent_after x (h ∷ hs) = elim (Bool-cases (h == x)) [
  | inl e ↦ rw e (absent_after x hs)
  | inr e ↦ rw e (rw (==_false_sym h x e) (absent_after x hs))
]

-- In a table whose handles are below the next one, a new handle is one that is not open, it is open
-- afterwards, releasing it closes it, and the handles stay below the next one.
pub allocate_fresh :
    (inode : ℕ) (t t' : FileHandleTable) (handle : ℕ)
    → HandlesBelow t
    → allocate inode t ≡ (ok handle, t')
    → (contains t.handles handle ≡ false)
      × (contains t'.handles handle ≡ true)
      × (contains (handle_release handle t').handles handle ≡ false)
      × HandlesBelow t'
unfolding allocate contains handle_release
allocate_fresh inode t t' handle below h = elim (Bool-cases (inode == root_inode)) [
  | inl r ↦
      let h' : refused ≡ (ok handle, t') = rw (allocate, r) at h in
      let bad : ◌≡◌ {A = Result Errno ℕ} (err eisdir) (ok handle) = ap (λ x. x.0) h' in cc
  | inr r ↦
      let h' : given ≡ (ok handle, t') = rw (allocate, r) at h in
      let first : ◌≡◌ {A = Result Errno ℕ} (ok t.next) (ok handle) = ap (λ x. x.0) h' in
      let same : t.next ≡ handle = cc in
      rw (← same, ← ap (λ x. x.1) h')
        (
          below_absent t.next t.handles below,
          rw (==_refl t.next) refl,
          absent_after t.next (t.next ∷ t.handles),
          (omega arith, All-map _ _ t.handles (λ x l. omega (arith, l)) below),
        )
]
  where
    given : Result Errno ℕ × FileHandleTable
    given = (ok t.next, record { next = suc t.next; handles = t.next ∷ t.handles })

    refused : Result Errno ℕ × FileHandleTable
    refused = (err eisdir, t)
