-- ===== src/Handler/Listing/Overflow.antt =====
-- ROOMS and WHO: when the line fits in the buffer of 512 bytes, and when a write goes out of bounds.
use Prim.Native.String.{String}
use multi_client_chat_server.Prelude.{
  ◌>>=◌, ℕ, zero, suc, ◌+◌, ◌-◌, ◌/◌, ◌%◌, ◌≡◌, ◌≤◌, refl, sym, ◌∙◌, arith, true, false, Bool-cases,
  inl, inr, Option, none, some, List, [], ◌∷◌, ◌++◌, append-nil, append_assoc, Text, codes, leb,
  if◌then◌else◌, take, drop, length, length-append, length-take, min, All, All-take, All-drop,
}
use multi_client_chat_server.Room.{Room, Client}
use multi_client_chat_server.Protocol.Format.{max_line_len, snprintf, digits_onto, decimal}
use multi_client_chat_server.Registry.{Registry}
use multi_client_chat_server.Handler.{Conn, self}
use multi_client_chat_server.Handler.Listing.{
  append_to, append_all, append_page, end_line, offset_of, limit_of, page_count, head_text, listing,
  tell, room_item, handle_rooms, member_item, handle_who,
}

bind_some :
    {A B : Type 0} (o : Option A) (f : A → Option B) (b : B)
    → (do a ← o; f a) ≡ some b
    → (a : A) × (o ≡ some a) × (f a ≡ some b)
bind_some none f b h = absurd (cc)
bind_some (some a) f b h = (a, refl, h)

some-inj : {A : Type 0} (a b : A) → some a ≡ some b → a ≡ b
some-inj a b h = cc

module _ {A : Type 0} (item : A → Option Text) where
  -- The entries one after the other, none where one of them is read through a dangling pointer.
  unfoldable pub all_text : List A → Option Text
  all_text [] = some []
  all_text (x ∷ xs) = do t ← item x; ts ← all_text xs; some (t ++ ts)

  all_text-cons :
      (x : A) (xs : List A) (ts : Text)
      → all_text (x ∷ xs) ≡ some ts
      → (t us : Text) × (item x ≡ some t) × (all_text xs ≡ some us) × (t ++ us ≡ ts)
  unfolding all_text
  all_text-cons x xs ts h =
      let (t, it, k) = bind_some (item x) _ ts h in
      let (us, iu, l) = bind_some (all_text xs) _ ts k in (t, us, it, iu, some-inj _ _ l)

  append_all_lem :
      (printed : Text) (xs : List A) (ts : Text)
      → all_text xs ≡ some ts
      → (do all ← append_all item printed xs; end_line all) ≡ (
          if leb (length (printed ++ ts)) max_line_len
          then some (snprintf max_line_len ((printed ++ ts) ++ (b'\n' ∷ [])))
          else none)
  unfolding append_all append_to end_line all_text
  append_all_lem printed [] ts h =
      let e : [] ≡ ts = some-inj _ _ h in
      rw (sym e, append-nil printed)
        (elim (Bool-cases (leb (length printed) max_line_len)) [
          | inl p ↦ rw p refl
          | inr p ↦ rw p refl
        ])
  append_all_lem printed (x ∷ xs) ts h =
      let (t, us, it, iu, e) = all_text-cons x xs ts h in
      elim (Bool-cases (leb (length printed) max_line_len)) [
        | inl p ↦
            rw (it, append_all)
              (rw p
                (append_all_lem (printed ++ t) xs us iu ∙ rw (append_assoc printed t us, e) refl))
        | inr p ↦
            let q : leb (length (printed ++ ts)) max_line_len ≡ false =
              ground (arith, length-append printed ts) in
            rw (it, append_all) (rw (p, q) refl)
      ]

  listing_lem :
      {B : Type 0} (word : String) (xs : List A) (ts : Text) (send : Text → Option B)
      → all_text xs ≡ some ts
      → (do line ← listing item word xs none none; send line) ≡ (
          if leb (length (codes word ++ ts)) max_line_len
          then send (snprintf max_line_len ((codes word ++ ts) ++ (b'\n' ∷ [])))
          else none)
  unfolding listing
  listing_lem word xs ts send h =
      let e = append_all_lem (codes word) xs ts h in
      elim (Bool-cases (leb (length (codes word ++ ts)) max_line_len)) [
        | inl p ↦ rw (e, listing) (rw p refl)
        | inr p ↦ rw (e, listing) (rw p refl)
      ]

-- WHO with no argument, in a room whose members can all be read: the reply is WHO_REPLY with one entry for each
-- member, in the order of joining, whole or cut to 511 bytes, if this text has at most 512 bytes; with a longer
-- one, the handler writes outside its buffer.
pub handle_who-overflow :
    (g : Registry) (conn : Conn) (me : ℕ) (c : Client) (room : ℕ) (r : Room) (ts : Text)
    → self g conn ≡ some (me, c)
    → c.current_room ≡ some room
    → g.rooms room ≡ some r
    → all_text (member_item g r) (take r.members.count r.members.slots) ≡ some ts
    → handle_who g conn none none ≡ (
        if leb (length (codes "WHO_REPLY" ++ ts)) max_line_len
        then tell g conn (snprintf max_line_len ((codes "WHO_REPLY" ++ ts) ++ (b'\n' ∷ [])))
        else none)
unfolding handle_who listing
handle_who-overflow g conn me c room r ts hs hc hr ht =
    rw (hs, handle_who)
      (rw hc (
        rw hr (
          listing_lem (member_item g r) "WHO_REPLY" (take r.members.count r.members.slots) ts
            (tell g conn) ht)))

end_line-short :
    (t : Text) → length t ≤ 512 → end_line t ≡ some (snprintf max_line_len (t ++ (b'\n' ∷ [])))
unfolding end_line append_to
end_line-short t h = let p : leb (length t) max_line_len ≡ true = ground arith in rw p refl

length-digits_onto : (f n : ℕ) (rest : Text) → length (digits_onto f n rest) ≤ suc f + length rest
unfolding digits_onto
length-digits_onto zero n rest = omega arith
length-digits_onto (suc f) n rest =
    ground (arith, length-digits_onto f (n / 10) ((b'0' + n % 10) ∷ rest))

pub length-decimal : (n : ℕ) → length (decimal n) ≤ 21
unfolding decimal
length-decimal n = omega (arith, length-digits_onto 20 n [])

length-head_text :
    (word : String) (a b c : ℕ) → length (head_text word a b c) ≤ length (codes word) + 66
unfolding head_text
length-head_text word a b c = omega (
  arith,
  length-append (codes word) (b' ' ∷ (decimal a ++ (b' ' ∷ (decimal b ++ (b' ' ∷ decimal c))))),
  length-append (decimal a) (b' ' ∷ (decimal b ++ (b' ' ∷ decimal c))),
  length-append (decimal b) (b' ' ∷ decimal c),
  length-decimal a,
  length-decimal b,
  length-decimal c,
)

module _ {A : Type 0} (item : A → Option Text) where
  append_page-short :
      (printed : Text) (xs : List A)
      → All (λ x. (t : Text) × (item x ≡ some t) × (length t ≤ 32)) xs
      → length printed ≤ 480
      → (all : Text) × (append_page item printed xs ≡ some all) × (length all ≤ 512)
  unfolding append_page append_to
  append_page-short printed [] h b = (printed, refl, omega arith)
  append_page-short printed (x ∷ xs) h b =
      let (t, it, short) = h.0 in
      let p : leb (length printed) max_line_len ≡ true = ground arith in
      let long : length (printed ++ t) ≤ 512 = omega (arith, length-append printed t) in
      let step : append_page item printed (x ∷ xs)
          ≡ elim (leb (max_line_len - 32) (length (printed ++ t))) [
            | true ↦ some (printed ++ t)
            | false ↦ append_page item (printed ++ t) xs
          ] =
        rw (it, append_page) (rw p refl) in
      elim (Bool-cases (leb (max_line_len - 32) (length (printed ++ t)))) [
        | inl q ↦ (printed ++ t, step ∙ (rw q refl), long)
        | inr q ↦
            let (all, e, k) = append_page-short (printed ++ t) xs h.1 (ground arith) in
            (all, step ∙ (rw q e), k)
      ]

  listing-page :
      (word : String) (xs : List A) (offset : Text) (limit : Option Text)
      → length (codes word) ≤ 400
      → All (λ x. (t : Text) × (item x ≡ some t) × (length t ≤ 32)) xs
      → (line : Text) × (listing item word xs (some offset) limit ≡ some line) × (length line ≤ 511)
  unfolding listing end_line append_to
  listing-page word xs offset limit w h =
      let total = length xs in
      let from = min (offset_of (some offset)) total in
      let count = page_count (limit_of limit) (total - from) in
      let head = head_text word total from count in
      let (all, e, long) =
        append_page-short head (take count (drop from xs))
          (All-take _ count (drop from xs) (All-drop _ from xs h))
          (omega (arith, length-head_text word total from count)) in
      (
        snprintf max_line_len (all ++ (b'\n' ∷ [])),
        rw (e, listing) (end_line-short all long),
        omega (arith, length-take 511 (all ++ (b'\n' ∷ []))),
      )

abbrev Listed : Registry → Option ℕ → Type 0
Listed g slot =
    (a : ℕ) × (r : Room) × (slot ≡ some a) × (g.rooms a ≡ some r) × (length r.room_name ≤ 31)

room_items :
    (g : Registry) (xs : List (Option ℕ))
    → All (Listed g) xs
    → All (λ x. (t : Text) × (room_item g x ≡ some t) × (length t ≤ 32)) xs
unfolding room_item
room_items g [] h = tt
room_items g (x ∷ xs) h =
    let (a, r, e, k, short) = h.0 in
    ((b' ' ∷ r.room_name, rw (e, k) refl, omega arith), room_items g xs h.1)

-- ROOMS with an offset: where every listed room can be read and has a name of at most 31 bytes, the reply is one line
-- of at most 511 bytes, and no write goes outside the buffer.
pub handle_rooms-page :
    (g : Registry) (conn : Conn) (offset : Text) (limit : Option Text)
    → All (Listed g) (take g.room_list.count g.room_list.slots)
    → (line : Text) × (handle_rooms g conn (some offset) limit ≡ tell g conn line)
      × (length line ≤ 511)
unfolding handle_rooms
handle_rooms-page g conn offset limit h =
    let (line, e, short) =
      listing-page (room_item g) "ROOMS_REPLY" (take g.room_list.count g.room_list.slots) offset
        limit (omega arith) (room_items g _ h) in
    (line, rw e refl, short)
