-- ===== src/Tests/Witnesses.antt =====
-- Each theorem at one concrete input.
use umcp.Prelude.{◌≡◌, refl, ◌↔◌, ◌⊎◌, true, false, none, some, [], ◌∷◌}
use umcp.Score.{pos}
use umcp.Sorting.Laws.{All}
use umcp.Domain.Errors.{ok, err, IsExpected, invalid_state_transition, version_conflict}
use umcp.Domain.Enums.{candidate, confirmed}
use umcp.Domain.Memory.{Memory, make_memory, assert_transition}
use umcp.Domain.Memory.Lifecycle.{Documented, Missing, Undocumented, assert_transition-Documented}
use umcp.Domain.Memory.Construction.{Evolves, evolve-Evolves, make_memory_idem}
use umcp.Application.Store.{empty_store}
use umcp.Application.Exec.Triple.{Holds, RolledBack}
use umcp.Application.Repository
use umcp.Application.Repository.Candidates.{Lists}
use umcp.Application.Repository.Forgetting
use umcp.Application.Repository.Concurrency
use umcp.Application.Services.Writing.{write}
use umcp.Application.Services.Repeating.{write-repeats}
use umcp.Application.Services.Inbox.{list_inbox}
use umcp.Application.Services.Finding.{search, recall, item_of, requested_spaces, all_allowed}
use umcp.Application.Services.Finding.Ranking.{Shown}
use umcp.Application.Services.Finding.Spaceless.{from_space, from_nowhere, recall-spaceless}
use umcp.Application.Services.Finding.Policy.{Permitted, InUnit, score-bounds}
use umcp.Application.Services.Keeping.Reading.{
  Page, Searched, Recalled, search-Holds, recall-Holds, recall-Permitted,
}
use umcp.Application.Services.Keeping.Listing.{list_inbox-Holds, has_more}
use umcp.Application.Services.Request
use umcp.Application.Services.Request.Reachable.{Safe, Reach-Inv, handle-Safe}
use umcp.Application.Idempotency.Settling.{Inv, empty-Inv}
use umcp.Application.Transfer.{MemoryExportRecord, export_memory, validate_import_record}
use umcp.Application.Transfer.Complete.{export_memory_valid}
use mathlib.Core.Bool.{true≢false}
use umcp.Domain.Errors.{idempotency_conflict}
use umcp.Prelude.{◌==◌, string_eq, ap}
use umcp.Application.Services.Conflicting.{write-conflicts}
use umcp.Tests.Examples.{
  tea-owned, tea_store-digests, noon, service_at, remember, tea, tea_store, remembered, IsFresh-7,
  IsFresh-8, tea_store-Reach, tea_store-Inv, look, ask, list_first, forget_tea, tea_page, recalled,
  tea_at_five, moved, five_store, updated, to_five, tea-evolved, tea-made, noon-aware, at_home,
  far_tea, tea-valid, inbox_store, inbox_store-WellFormed,
}

Reach-Inv_example : Inv tea_store
Reach-Inv_example = Reach-Inv tea_store tea_store-Reach

handle-Safe_example :
    Safe tea_store (Request.handle (service_at 8) (Request.forget forget_tea) tea_store)
handle-Safe_example =
    handle-Safe (service_at 8) (Request.forget forget_tea) tea_store tea_store-Inv IsFresh-8

write-repeats_example :
    write (service_at 8) remember tea_store
    ≡ (ok (record { memory = tea; created = false }), tea_store)
write-repeats_example =
    write-repeats (service_at 7) (service_at 8) empty_store tea_store remember "k1"
      (record { memory = tea; created = true }) noon empty-Inv IsFresh-7 refl refl refl noon-aware
      remembered

write-conflicts_example :
    write
      (record (service_at 8) { digest = λ json. "another digest" })
      (record remember { content = "coffee" })
      tea_store
    ≡ (err idempotency_conflict, tea_store)
write-conflicts_example =
    write-conflicts (service_at 7) (record (service_at 8) { digest = λ json. "another digest" })
      empty_store tea_store remember (record remember { content = "coffee" }) "k1"
      (record { memory = tea; created = true }) noon empty-Inv IsFresh-7 refl refl refl refl
      noon-aware (λ h. true≢false (ap (λ t. t == "another digest") h)) remembered

search-Holds_example :
    Holds
      (λ r t.
        Page (service_at 8) tea_store "tea" 10 (pos 300000) (Searched (service_at 8) look) r
        × (t ≡ tea_store))
      (RolledBack IsExpected tea_store)
      (search (service_at 8) look tea_store)
search-Holds_example = search-Holds (service_at 8) tea_store tea_store-Inv.well look

recall-Holds_example :
    Holds
      (λ r t.
        Page
          (service_at 8)
          tea_store
          "tea"
          10
          (pos 300000)
          (Shown ask (Recalled (service_at 8) ask))
          r
        × (all_allowed ask.space_policy ask.context_space
              (requested_spaces ask.include_spaces ask.context_space)
            ≡ true)
        × (t ≡ tea_store))
      (RolledBack IsExpected tea_store)
      (recall (service_at 8) ask tea_store)
recall-Holds_example = recall-Holds (service_at 8) tea_store tea_store-Inv.well ask

recall-Permitted_example : All (λ i. Permitted ask i.memory) tea_page.items
unfolding requested_spaces
recall-Permitted_example =
    recall-Permitted (service_at 8) ask tea_store tea_store tea_page tea_store-Inv.well refl
      recalled

update-Outcome_example :
    Concurrency.Outcome tea_at_five 1 moved
      (pos 1 ∷ pos 0 ∷ [])
      tea_store
      (Repository.update tea_at_five 1 moved (pos 1 ∷ pos 0 ∷ []) tea_store)
update-Outcome_example =
    Concurrency.update-Outcome tea_store tea_store-Inv.well tea_at_five 1 moved (pos 1 ∷ pos 0 ∷ [])

update-refuses_second_example :
    Repository.update tea_at_five 1 moved (pos 0 ∷ pos 1 ∷ []) five_store
    ≡ (err version_conflict, five_store)
update-refuses_second_example =
    Concurrency.update-refuses_second tea_store five_store tea_at_five tea_at_five 1 moved moved
      (pos 1 ∷ pos 0 ∷ []) (pos 0 ∷ pos 1 ∷ []) tea_store-Inv.well refl refl refl updated

forget-Outcome_example :
    Forgetting.Outcome "ada" (some "t") 7 tea_store (Repository.forget "ada" (some "t") 7 tea_store)
forget-Outcome_example = Forgetting.forget-Outcome "ada" (some "t") 7 tea_store

assert_transition-Documented_example :
    ((assert_transition candidate confirmed none ≡ ok tt) ↔ (
      (confirmed ≡ candidate)
      ⊎ (Documented candidate confirmed none × ¬ Missing candidate confirmed)
      ⊎ Undocumented candidate confirmed none))
    × ((assert_transition candidate confirmed none ≡ ok tt)
        ⊎ (assert_transition candidate confirmed none ≡ err invalid_state_transition))
assert_transition-Documented_example = assert_transition-Documented candidate confirmed none

evolve-Evolves_example : Evolves tea tea_at_five noon to_five
evolve-Evolves_example = evolve-Evolves tea tea_at_five noon to_five tea-evolved

make_memory_idem_example : make_memory tea ≡ ok tea
make_memory_idem_example = make_memory_idem (record tea { content = " tea at  four" }) tea tea-made

score-bounds_example :
    InUnit (item_of (service_at 8) far_tea).score
    × InUnit (item_of (service_at 8) far_tea).similarity
score-bounds_example = score-bounds (service_at 8) far_tea tea-valid

list_inbox-Holds_example :
    Holds
      (λ r t.
        Lists inbox_store "ada" "t" none 5 r.candidates (has_more r.next_cursor)
        × (t ≡ inbox_store))
      (RolledBack IsExpected inbox_store)
      (list_inbox (service_at 8) list_first inbox_store)
list_inbox-Holds_example =
    list_inbox-Holds (service_at 8) list_first inbox_store inbox_store-WellFormed

recall-spaceless_example :
    recall (service_at 8) (from_nowhere at_home ask) tea_store
    ≡ recall (service_at 8) (from_space "home" ask) tea_store
recall-spaceless_example = recall-spaceless (service_at 8) ask at_home "home" tea_store (refl, tt)

export_memory_valid_example :
    (r : MemoryExportRecord) × (export_memory "ada" 7 false tea_store ≡ ok (some r))
    × (r.memory ≡ tea)
    × (validate_import_record "ada" r [] ≡ ok (7 ∷ []))
export_memory_valid_example =
    export_memory_valid tea_store tea_store-Inv.well "ada" 7 tea tea-owned tea_store-digests [] refl
