-- ===== src/Error.antt =====
-- error.rs and http/error.rs: the codes and errors that every phase returns.
use ws_platform.Common.{Text, Bool, true, false}

-- `std::result::Result`.
pub data Result (E A : Type 0) : Type 0 where
  ok : A → Result E A
  err : E → Result E A

infixl 5 ◌>>=◌
abbrev pub ◌>>=◌ : {E A B : Type 0} → Result E A → (A → Result E B) → Result E B
ok a >>= f = f a
err e >>= f = err e

-- `Code::OK`, `Code::AGAIN` and `Code::DECLINED`.
pub data Code : Type 0 where
  done again declined : Code

-- `Flush`: OK with a peer or without, AGAIN, DECLINED and the others. `P` is the type of peers.
pub data Flush (P : Type 0) : Type 0 where
  finished unfinished refused : Flush P
  finished_with read_more write_more read_write_more : P → Flush P

pub record CoreError : Type 0 where
  pub text : Text

abbrev pub CoreResult : Type 0
CoreResult = Result CoreError Code

-- The macro `throw!`.
abbrev pub throw : {A : Type 0} → Text → Result CoreError A
throw text = err (record { text = text })

pub record HttpError : Type 0 where
  pub text : Text
  pub fatal : Bool

abbrev pub HttpResult : Type 0
HttpResult = Result HttpError Code

-- The macros `http_throw!` and `http_fatal!`.
abbrev pub http_throw : {A : Type 0} → Text → Result HttpError A
http_throw text = err (record { text = text; fatal = false })

abbrev pub http_fatal : {A : Type 0} → Text → Result HttpError A
http_fatal text = err (record { text = text; fatal = true })
