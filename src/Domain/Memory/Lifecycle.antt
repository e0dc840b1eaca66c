-- ===== src/Domain/Memory/Lifecycle.antt =====
-- `_assert_transition` of src/omp/domain/memory.py against the lifecycle table of
-- docs/handoffs/roadmap/M01-CORE-CONTRACT.md, section 4.
use umcp.Prelude.{◌≡◌, ◌≢◌, ◌↔◌, ◌⊎◌, Option, none, arith}
use umcp.Domain.Errors.{ok, err, invalid_state_transition, ◌>>=◌}
use umcp.Domain.Enums.{
  MemoryState, state_eq, candidate, confirmed, pinned, stale, active, superseded, contradicted,
  archived,
}
use umcp.Domain.Values.{Uuid}
use umcp.Domain.Memory.{assert_transition, allowed}

-- A memory that a user approved.
abbrev pub Approved : MemoryState → Type 0
Approved s = (s ≡ confirmed) ⊎ (s ≡ pinned)

-- A memory that another one displaced.
abbrev pub Displaced : MemoryState → Type 0
Displaced s = (s ≡ superseded) ⊎ (s ≡ contradicted)

-- The rows of the table that change the state of a stored memory; `r` is the memory that displaces
-- this one.
abbrev pub Documented : MemoryState → MemoryState → Option Uuid → Type 0
Documented s t r =
    ((s ≡ candidate) × (t ≡ confirmed))
    ⊎ ((s ≡ confirmed) × (t ≡ pinned))
    ⊎ ((s ≡ pinned) × (t ≡ confirmed))
    ⊎ (Approved s × (t ≡ stale))
    ⊎ ((s ≡ stale) × Approved t)
    ⊎ (Approved s × Displaced t × (r ≢ none))
    ⊎ (t ≡ archived)
    ⊎ ((s ≡ archived) × (t ≡ confirmed))

-- Rows of the table that the code refuses: the archiving of a memory that is not in use.
abbrev pub Missing : MemoryState → MemoryState → Type 0
Missing s t = (t ≡ archived) × ((s ≡ candidate) ⊎ (s ≡ stale) ⊎ Displaced s)

-- Moves of the code that are in no row: the direct pinning of a candidate, the return of a contradicted
-- memory, and the moves from and to the old state `active`, other than to `archived`.
abbrev pub Undocumented : MemoryState → MemoryState → Option Uuid → Type 0
Undocumented s t r =
    ((s ≡ candidate) × (t ≡ pinned))
    ⊎ ((s ≡ contradicted) × (t ≡ confirmed))
    ⊎ ((t ≡ active) × (Approved s ⊎ (s ≡ contradicted) ⊎ (s ≡ archived)))
    ⊎ ((s ≡ active) × Displaced t × (r ≢ none))

-- A change of state that stays in place is accepted. Any other one is accepted just when it is a row
-- of the table, save the archiving of candidate, stale, superseded and contradicted memories, or one
-- of these moves that are in no row: candidate to pinned, contradicted to confirmed, approved,
-- contradicted or archived to active, and active to superseded or contradicted for a related memory.
-- What is not accepted is refused with the error for an invalid transition.
pub assert_transition-Documented :
    (s t : MemoryState) (r : Option Uuid)
    → ((assert_transition s t r ≡ ok tt)
        ↔ ((t ≡ s) ⊎ (Documented s t r × ¬ Missing s t) ⊎ Undocumented s t r))
      × ((assert_transition s t r ≡ ok tt)
          ⊎ (assert_transition s t r ≡ err invalid_state_transition))
unfolding assert_transition ◌>>=◌ allowed
assert_transition-Documented s t r = ground arith
