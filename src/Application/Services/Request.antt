-- ===== src/Application/Services/Request.antt =====
-- The commands that the service takes, one after the other: the step relation of the store.
pub mod Reachable
use umcp.Prelude.{ℕ}
use umcp.Domain.Errors.{Error, Result}
use umcp.Domain.Values.{Relation}
use umcp.Domain.Memory.{Memory}
use umcp.Application.Models.{
  WriteMemoryCommand, WriteMemoryResult, CaptureMemoryCommand, ListInboxCommand, InboxResult,
  ConfirmCandidateCommand, PinMemoryCommand, DiscardCandidateCommand, UpdateMemoryCommand,
  SearchMemoryCommand, RecallMemoryCommand, SearchMemoryResult, ForgetMemoryCommand,
  ForgetMemoryResult, RelateMemoriesCommand,
}
use umcp.Application.Store.{InMemoryStore, empty_store}
use umcp.Application.Exec.{Exec, pure, ◌>>=◌}
use umcp.Application.Services.{Env}
use umcp.Application.Services.Writing
use umcp.Application.Services.Inbox
use umcp.Application.Services.Updating
use umcp.Application.Services.Finding
use umcp.Application.WellFormed.Adding.{IsFresh}

pub data Request : Type 0 where
  write : WriteMemoryCommand → Request
  capture : CaptureMemoryCommand → Request
  list_inbox : ListInboxCommand → Request
  confirm_candidate : ConfirmCandidateCommand → Request
  pin : PinMemoryCommand → Request
  discard_candidate : DiscardCandidateCommand → Request
  update : UpdateMemoryCommand → Request
  search : SearchMemoryCommand → Request
  recall : RecallMemoryCommand → Request
  forget : ForgetMemoryCommand → Request
  relate : RelateMemoriesCommand → Request

pub data Reply : Type 0 where
  stored : WriteMemoryResult → Reply
  inbox : InboxResult → Reply
  memory : Memory → Reply
  forgotten : ForgetMemoryResult → Reply
  found : SearchMemoryResult → Reply
  relation : Relation → Reply

abbrev pub reply_with {ℓ} : {A : Type ℓ} → (A → Reply) → Exec A → Exec Reply
reply_with f m = do a ← m; pure (f a)

-- The method of the service that a command belongs to.
unfoldable pub handle : Env → Request → Exec Reply
handle env (write c) = reply_with stored (Writing.write env c)
handle env (capture c) = reply_with stored (Writing.capture env c)
handle env (list_inbox c) = reply_with inbox (Inbox.list_inbox env c)
handle env (confirm_candidate c) = reply_with memory (Inbox.confirm_candidate env c)
handle env (pin c) = reply_with memory (Inbox.pin env c)
handle env (discard_candidate c) = reply_with forgotten (Inbox.discard_candidate env c)
handle env (update c) = reply_with memory (Updating.update env c)
handle env (search c) = reply_with found (Finding.search env c)
handle env (recall c) = reply_with found (Finding.recall env c)
handle env (forget c) = reply_with forgotten (Writing.forget env c)
handle env (relate c) = reply_with relation (Writing.relate env c)

-- The stores that requests lead to from the empty one. Each request comes with its own
-- surroundings, whose next identifier is fresh.
pub data Reach : InMemoryStore → Type 0 where
  start : Reach empty_store
  step :
      {s : InMemoryStore}
      → Reach s
      → (env : Env) (r : Request) → IsFresh env.new_id s
      → Reach ((handle env r s).1)
