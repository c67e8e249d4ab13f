-- ===== src/Homed/Core.antt =====
-- homed/core.py: the inode table, the handle table, the budget of requests, its leases, and the empty
-- projected home. Each method is taken as one step: the tables and the memory of the budget are behind
-- locks; that `reserve` takes its permit before the lock, and that `cancel` of a lease has none, is not
-- modelled.
use astral_project.Base.{
  ◌/◌, ◌%◌, ℕ, suc, ◌+◌, ◌-◌, ◌/◌, ◌%◌, String, Bool, true, false, not, ◌&&◌, ◌||◌, Option, none,
  some, List, [], ◌∷◌, ltb, if◌then◌else◌, ◌==◌, nat_eq, string_eq, list_eq, option_eq, pair_eq,
  Result, ok, err, ◌>>◌, raise_if, filter, contains, Bytes, codes, ℤ, pos, negsuc, pos_part, int_eq,
}
use astral_project.Base.Dict.{Dict, get, put, pop}

-- `errno`
pub data Errno : Type 0 where
  enoent eisdir enomem eagain erofs estale : Errno

pub record InodeRecord : Type 0 where
  pub inode : ℕ
  pub mode : ℕ
  pub size : ℕ

-- `ROOT_INODE`
abbrev pub root_inode : ℕ
root_inode = 1

-- `InodeRecord(ROOT_INODE, stat.S_IFDIR | 0o755)`
abbrev pub root_record : InodeRecord
root_record = record { inode = root_inode; mode = 16877; size = 0 }

pub record InodeTable : Type 0 where
  pub records : Dict ℕ InodeRecord
  pub lookups : Dict ℕ ℕ

abbrev pub new_inodes : InodeTable
new_inodes = record { records = (root_inode, root_record) ∷ []; lookups = (root_inode, 1) ∷ [] }

abbrev pub count_of : Option ℕ → ℕ
count_of none = 0
count_of (some n) = n

-- `InodeTable.getattr`
unfoldable pub inode_getattr : ℕ → InodeTable → Result Errno InodeRecord
inode_getattr inode t = elim (get inode t.records) [ none ↦ err enoent | some r ↦ ok r ]

abbrev pub is_dots : Bytes → Bool
is_dots name = contains (codes "." ∷ codes ".." ∷ []) name

-- `lookup_root`
unfoldable pub lookup_root : Bytes → InodeTable → Result Errno InodeRecord × InodeTable
unfolding inode_getattr
lookup_root name t =
    if is_dots name
    then (
      inode_getattr root_inode t,
      record t { lookups = put root_inode (suc (count_of (get root_inode t.lookups))) t.lookups },
    )
    else (err enoent, t)

-- `InodeTable.forget`; `max(0, count_before - count)` is subtraction of natural numbers
unfoldable pub inode_forget : ℕ → ℤ → InodeTable → InodeTable
inode_forget inode (negsuc n) t = t
inode_forget inode (pos count) t = elim (get inode t.records) [
  | none ↦ t
  | some r ↦
      let left = count_of (get inode t.lookups) - count in
      if not (inode == root_inode) && left == 0
      then record { records = pop inode t.records; lookups = pop inode t.lookups }
      else record t { lookups = put inode left t.lookups }
]

-- `lookup_count`
unfoldable pub lookup_count : ℕ → InodeTable → ℕ
lookup_count inode t = count_of (get inode t.lookups)

pub record FileHandleTable : Type 0 where
  pub next : ℕ
  pub handles : List ℕ

abbrev pub new_handles : FileHandleTable
new_handles = record { next = 1; handles = [] }

-- `allocate`
unfoldable pub allocate : ℕ → FileHandleTable → Result Errno ℕ × FileHandleTable
allocate inode t =
    if inode == root_inode
    then (err eisdir, t)
    else (ok t.next, record { next = suc t.next; handles = t.next ∷ t.handles })

-- `FileHandleTable.release`
unfoldable pub handle_release : ℕ → FileHandleTable → FileHandleTable
handle_release handle t = record t { handles = filter (λ h. not (h == handle)) t.handles }

-- `close_all`
unfoldable pub close_all : FileHandleTable → FileHandleTable
close_all t = record t { handles = [] }

-- `RequestBudget`, with the value of its semaphore
pub record RequestBudget : Type 0 where
  pub max_requests : ℕ
  pub max_memory : ℕ
  pub permits : ℕ
  pub memory : ℕ

-- `RequestBudget.__init__`
unfoldable pub make_budget : ℤ → ℤ → Result String RequestBudget
make_budget (pos (suc requests)) (pos (suc memory)) = ok (record {
  max_requests = suc requests;
  max_memory = suc memory;
  permits = suc requests;
  memory = 0;
})
make_budget _ _ = err "request limits must be positive"

-- `reserve`, with a size that is not negative; the semaphore gets its permit back on the last error. The
-- permit is taken before the lock in the code, and together with what is behind the lock here.
unfoldable pub reserve_size : ℕ → RequestBudget → Result Errno (Unit {0}) × RequestBudget
reserve_size size b =
    if ltb b.max_memory size
    then (err enomem, b)
    else if b.permits == 0
    then (err eagain, b)
    else if ltb b.max_memory (b.memory + size)
    then (err enomem, record b { permits = suc (b.permits - 1) })
    else (ok tt, record b { permits = b.permits - 1; memory = b.memory + size })

-- `reserve`
unfoldable pub reserve : ℤ → RequestBudget → Result Errno (Unit {0}) × RequestBudget
unfolding reserve_size
reserve (negsuc n) b = (err enomem, b)
reserve (pos size) b = reserve_size size b

-- `RequestBudget.release`; `max(0, size)` is the positive part
unfoldable pub budget_release : ℤ → RequestBudget → RequestBudget
budget_release size b = record b { memory = b.memory - pos_part size; permits = suc b.permits }

pub record RequestLease : Type 0 where
  pub size : ℤ
  pub active : Bool

-- `RequestLease.__init__`
unfoldable pub open_lease : ℤ → RequestBudget → Result Errno RequestLease × RequestBudget
unfolding reserve
open_lease size b =
    let (result, b') = reserve size b in (result >> ok (record { size = size; active = true }), b')

-- `cancel`, and `__exit__`, of callers that do not overlap: the code tests and clears `_active` without
-- a lock
unfoldable pub cancel_lease : RequestLease → RequestBudget → RequestLease × RequestBudget
unfolding budget_release
cancel_lease l b =
    if l.active then (record l { active = false }, budget_release l.size b) else (l, b)

pub record EmptyProjectedHome : Type 0 where
  pub inodes : InodeTable
  pub handles : FileHandleTable
  pub is_closed : Bool

abbrev pub new_home : EmptyProjectedHome
new_home = record { inodes = new_inodes; handles = new_handles; is_closed = false }

-- `lookup`
unfoldable pub home_lookup :
    ℕ → Bytes → EmptyProjectedHome → Result Errno InodeRecord × EmptyProjectedHome
unfolding lookup_root
home_lookup parent name h =
    if h.is_closed
    then (err estale, h)
    else if not (parent == root_inode)
    then (err enoent, h)
    else let (result, inodes) = lookup_root name h.inodes in (result, record h { inodes = inodes })

-- `getattr`
unfoldable pub home_getattr : ℕ → EmptyProjectedHome → Result Errno InodeRecord
unfolding inode_getattr
home_getattr inode h = raise_if h.is_closed estale >> inode_getattr inode h.inodes

-- `stat.S_ISDIR`
abbrev pub is_directory : ℕ → Bool
is_directory mode = mode / 4096 % 16 == 4

-- `flags & (os.O_WRONLY | os.O_RDWR | os.O_TRUNC)`, the bits 1, 2 and 512
abbrev pub is_writing : ℕ → Bool
is_writing flags = not (flags % 4 == 0) || flags / 512 % 2 == 1

-- `open`
unfoldable pub home_open : ℕ → ℕ → EmptyProjectedHome → Result Errno ℕ × EmptyProjectedHome
unfolding home_getattr allocate
home_open inode flags h = elim (home_getattr inode h) [
  | err e ↦ (err e, h)
  | ok r ↦
      if is_directory r.mode
      then (err eisdir, h)
      else if is_writing flags
      then (err erofs, h)
      else let (result, handles) = allocate inode h.handles in
        (result, record h { handles = handles })
]

-- `release`
unfoldable pub home_release : ℕ → EmptyProjectedHome → EmptyProjectedHome
unfolding handle_release
home_release handle h = record h { handles = handle_release handle h.handles }

-- `forget`
unfoldable pub home_forget : ℕ → ℤ → EmptyProjectedHome → EmptyProjectedHome
unfolding inode_forget
home_forget inode count h = record h { inodes = inode_forget inode count h.inodes }

-- `close`
unfoldable pub home_close : EmptyProjectedHome → EmptyProjectedHome
unfolding close_all
home_close h = record h { is_closed = true; handles = close_all h.handles }
