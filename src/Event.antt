-- ===== src/Event.antt =====
-- Tokens, events and jobs: src/token.rs and the plain data of src/event_imp.rs.
use sickle.Base.{ℕ, Bool, ◌&&◌, ◌==◌}
use sickle.Ready.{Ready}

-- `Token(usize)`
pub record Token : Type 0 where
  pub id : ℕ

pub data TokenType : Type 0 where
  socket_event notify_event timers_event jobs_event token_event accept_event other_event : TokenType

-- The discriminant, by which the derived `PartialEq` compares.
abbrev pub discriminant : TokenType → ℕ
discriminant TokenType.socket_event = 0
discriminant TokenType.notify_event = 1
discriminant TokenType.timers_event = 2
discriminant TokenType.jobs_event = 3
discriminant TokenType.token_event = 4
discriminant TokenType.accept_event = 5
discriminant TokenType.other_event = 6

abbrev pub ttype_eq : TokenType → TokenType → Bool
ttype_eq a b = discriminant a == discriminant b

pub record TokenEntry : Type 0 where
  pub ttype : TokenType
  pub token : Token

-- The derived `PartialEq` of `TokenEntry`.
abbrev pub entry_eq : TokenEntry → TokenEntry → Bool
entry_eq a b = ttype_eq a.ttype b.ttype && a.token.id == b.token.id

pub record Event : Type 0 where
  pub kind : Ready
  pub token : TokenEntry

-- A `Job` is a shared closure. It stands here for the identity of its `Arc`: `noop` is the job
-- `|_| {}`, and every other number is a closure that the caller handed over.
abbrev pub Job : Type 0
Job = ℕ

abbrev pub noop : Job
noop = 0

pub record JobEntry : Type 0 where
  pub token_entry : TokenEntry
  pub job : Job
  pub ready : Ready
