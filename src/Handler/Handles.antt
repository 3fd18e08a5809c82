-- ===== src/Handler/Handles.antt =====
-- The databases that the commands on blocks, roles, invitations and receipts use: their handles, and what
-- opening each would give.
use multi_client_chat_server.Prelude.{ℕ, Option, none, some, ◌>>=◌}
use multi_client_chat_server.Room.{Room, Client}
use multi_client_chat_server.Registry.{Registry}
use multi_client_chat_server.Handler.{Conn, Outcome, refuse, self}
use Prim.Native.String.{String}

-- The sources open one file, DB_FILE, once for each handle. Here each handle has a database of its own, so
-- that a write through one is not seen through another; `sessions` is the one table that the source uses
-- through two handles, `db` and `session_db`.
-- `db` of src/db.c, `session_db`, `block_db`, `perm_db`, `invite_db` and `receipt_db`.
pub record Handles (Db : Type 0) : Type 0 where
  pub chat : Option Db
  pub sessions : Option Db
  pub blocks : Option Db
  pub roles : Option Db
  pub invites : Option Db
  pub receipts : Option Db

-- The handles afterwards, and the outcome.
abbrev pub Answered : Type 0 → Type 0
Answered Db = Handles Db × Outcome

module _ {Db : Type 0} where
  abbrev pub refuse_with : Handles Db → Registry → Conn → String → Option (Answered Db)
  refuse_with h g conn code = do o ← refuse g conn code; some (h, o)

  -- `me->current_room == NULL`, refused; else `go` with the client and the room.
  unfoldable pub in_room :
      Handles Db
      → Registry
      → Conn
      → (ℕ → Client → ℕ → Room → Option (Answered Db))
      → Option (Answered Db)
  in_room h g conn go = do
    (me, c) ← self g conn
    elim c.current_room [
      | none ↦ refuse_with h g conn "NOT_IN_ROOM"
      | some room ↦ do r ← g.rooms room; go me c room r
    ]
