-- ===== src/Handler/Rights.antt =====
-- process_line: what a client without rights in its room gets from MUTE, BAN, DEMOTE, INVITE and UNMUTE.
use Prim.Native.String.{String}
use multi_client_chat_server.Prelude.{
  ℕ, ℤ, ◌≡◌, refl, false, some, [], ◌∷◌, Text, codes, text_eq, int_eq, leb, arith, if◌then◌else◌,
  Bool-cases, inl, inr,
}
use multi_client_chat_server.Room.{Room, Client}
use multi_client_chat_server.Registry.{Registry}
use multi_client_chat_server.Store.{Sqlite, success}
use multi_client_chat_server.Store.Block.{mute_remove}
use multi_client_chat_server.Store.Permission.{
  permission_get_role, permission_check, role_allows, role_admin,
}
use multi_client_chat_server.Handler.{Conn, self, ok_reply, err_reply}
use multi_client_chat_server.Handler.Handles.{Handles, in_room}
use multi_client_chat_server.Handler.Moderation.{
  allowed, report, handle_mute, handle_ban, handle_demote, handle_unmute,
}
use multi_client_chat_server.Handler.Invites.{handle_invite}

-- Below an admin's role, none of the guarded commands is allowed.
below_admin :
    (role : ℕ)
    → leb role_admin role ≡ false
    → (role_allows role (codes "MUTE") ≡ false)
      × (role_allows role (codes "BAN") ≡ false)
      × (role_allows role (codes "DEMOTE") ≡ false)
      × (role_allows role (codes "INVITE") ≡ false)
unfolding role_allows text_eq
below_admin role h = (h, ground arith, ground arith, h)

module _ (s : Sqlite) where
  reported :
      {h : Handles s.Db} {g : Registry} {conn : Conn} (result : ℤ) (ok : String)
      → report s h g conn result ok "USER_NOT_MUTED"
        ≡ some (
          h,
          (
            g,
            conn,
            (if int_eq result success then ok_reply conn ok else err_reply conn "USER_NOT_MUTED")
                ∷ [],
          ),
        )
  unfolding report
  reported result ok = elim (Bool-cases (int_eq result success)) [
    | inl p ↦ rw p refl
    | inr p ↦ rw p refl
  ]

  -- For a client in a room whose role there is below an admin's, whatever the argument: MUTE and INVITE are refused with
  -- NOT_ADMIN, BAN and DEMOTE with NOT_ROOM_OWNER; nothing changes but that the table of roles may have
  -- been opened. UNMUTE has no such guard: it takes the mute away, as mute_remove does, and answers by its result.
  pub member_rights :
      (h opened : Handles s.Db) (g : Registry) (conn : Conn) (me : ℕ) (c : Client) (room : ℕ)
      (r : Room) (name : Text)
      → self g conn ≡ some (me, c)
      → c.current_room ≡ some room
      → g.rooms room ≡ some r
      → leb role_admin (permission_get_role s h.roles opened.roles r.room_name c.client_name).1
        ≡ false
      → (let roles = (permission_get_role s h.roles opened.roles r.room_name c.client_name).0 in
          let asked = record h { roles = roles } in
          let (blocks, result) = mute_remove s h.blocks opened.blocks r.room_name name in
          (handle_mute s h opened g conn (some name)
            ≡ some (asked, (g, conn, err_reply conn "NOT_ADMIN" ∷ [])))
          × (handle_invite s h opened g conn (some name)
              ≡ some (asked, (g, conn, err_reply conn "NOT_ADMIN" ∷ [])))
          × (handle_ban s h opened g conn (some name)
              ≡ some (asked, (g, conn, err_reply conn "NOT_ROOM_OWNER" ∷ [])))
          × (handle_demote s h opened g conn (some name)
              ≡ some (asked, (g, conn, err_reply conn "NOT_ROOM_OWNER" ∷ [])))
          × (handle_unmute s h opened g conn (some name)
              ≡ some (
                record h { blocks = blocks },
                (
                  g,
                  conn,
                  (if int_eq result success
                        then ok_reply conn "UNMUTED"
                        else err_reply conn "USER_NOT_MUTED")
                      ∷ [],
                ),
              )))
  unfolding handle_mute handle_ban handle_demote handle_unmute handle_invite in_room allowed
      permission_check report
  member_rights h opened g conn me c room r name hs hc hr low =
      let (m, b, d, i) =
        below_admin (permission_get_role s h.roles opened.roles r.room_name c.client_name).1 low in
      (
        rw (hs, handle_mute) (rw hc (rw hr (rw m refl))),
        rw (hs, handle_invite) (rw hc (rw hr (rw i refl))),
        rw (hs, handle_ban) (rw hc (rw hr (rw b refl))),
        rw (hs, handle_demote) (rw hc (rw hr (rw d refl))),
        rw (hs, handle_unmute)
            (rw hc (
              rw hr
                (reported (mute_remove s h.blocks opened.blocks r.room_name name).1 "UNMUTED"))),
      )
