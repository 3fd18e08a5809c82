-- ===== src/Handler/Listing/Tests.antt =====
-- ROOMS, WHO and the moderation commands on the example registry.
use multi_client_chat_server.Prelude.{
  ◌≡◌, refl, none, some, [], ◌∷◌, ◌++◌, Text, codes, leb, length, if◌then◌else◌, int_eq,
}
use multi_client_chat_server.Protocol.Format.{max_line_len, snprintf}
use multi_client_chat_server.Registry.Example.{ann, den, lobby}
use multi_client_chat_server.Store.{Sqlite, success}
use multi_client_chat_server.Store.Block.{mute_remove}
use multi_client_chat_server.Store.Permission.{permission_get_role}
use multi_client_chat_server.Handler.{Conn, err_reply, ok_reply}
use multi_client_chat_server.Handler.Handles.{Handles}
use multi_client_chat_server.Handler.Status.{status_name}
use multi_client_chat_server.Handler.Moderation.{
  handle_mute, handle_ban, handle_demote, handle_unmute,
}
use multi_client_chat_server.Handler.Invites.{handle_invite}
use multi_client_chat_server.Handler.Rights.{member_rights}
use multi_client_chat_server.Handler.Listing.{handle_who, tell, member_item, member_text}
use multi_client_chat_server.Handler.Listing.Overflow.{all_text, handle_who-overflow}

abbrev ann_conn : Conn
ann_conn = record { fd = 4; me = some 100 }

abbrev entries : Text
entries = codes " *ann/ONLINE bob/ONLINE"

handle_who-overflow_example : handle_who lobby ann_conn none none ≡ (
    if leb (length (codes "WHO_REPLY" ++ entries)) max_line_len
    then tell lobby ann_conn
        (snprintf max_line_len ((codes "WHO_REPLY" ++ entries) ++ (b'\n' ∷ [])))
    else none)
unfolding all_text member_item member_text status_name
handle_who-overflow_example =
    handle_who-overflow lobby ann_conn 100 ann 200 den entries refl refl refl refl

-- A database in which no statement can be prepared.
abbrev broken : Sqlite
broken = record { Db = Unit; run = λ st vs d. none }

abbrev handles : Handles Unit
handles = record {
  chat = none;
  sessions = none;
  blocks = some tt;
  roles = some tt;
  invites = none;
  receipts = none;
}

member_rights_example :
    let roles = (permission_get_role broken (some tt) none (codes "den") (codes "ann")).0 in
    let asked = record handles { roles = roles } in
    let (blocks, result) = mute_remove broken (some tt) none (codes "den") (codes "bob") in
    (handle_mute broken handles handles lobby ann_conn (some (codes "bob"))
      ≡ some (asked, (lobby, ann_conn, err_reply ann_conn "NOT_ADMIN" ∷ [])))
    × (handle_invite broken handles handles lobby ann_conn (some (codes "bob"))
        ≡ some (asked, (lobby, ann_conn, err_reply ann_conn "NOT_ADMIN" ∷ [])))
    × (handle_ban broken handles handles lobby ann_conn (some (codes "bob"))
        ≡ some (asked, (lobby, ann_conn, err_reply ann_conn "NOT_ROOM_OWNER" ∷ [])))
    × (handle_demote broken handles handles lobby ann_conn (some (codes "bob"))
        ≡ some (asked, (lobby, ann_conn, err_reply ann_conn "NOT_ROOM_OWNER" ∷ [])))
    × (handle_unmute broken handles handles lobby ann_conn (some (codes "bob"))
        ≡ some (
          record handles { blocks = blocks },
          (
            lobby,
            ann_conn,
            (if int_eq result success
                  then ok_reply ann_conn "UNMUTED"
                  else err_reply ann_conn "USER_NOT_MUTED")
                ∷ [],
          ),
        ))
unfolding permission_get_role mute_remove
member_rights_example =
    member_rights broken handles handles lobby ann_conn 100 ann 200 den (codes "bob") refl refl refl
      refl
