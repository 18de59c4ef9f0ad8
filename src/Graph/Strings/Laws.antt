-- ===== src/Graph/Strings/Laws.antt =====
-- The strings that an `InternedStringArena` (stack-graphs/src/graph.rs) holds.
use stack_graphs_muffet.Prelude.{
  ℕ, zero, suc, ◌+◌, ◌-◌, ◌*◌, ◌≤◌, ◌<◌, ◌≡◌, refl, ap, sym, ◌∙◌, subst, ◌==◌, ltb, leb, max,
  Bool-cases, false, ◌⊎◌, inl, inr, List, [], ◌∷◌, ◌++◌, length, length-append, none, some,
  get_elem?, arith, get_elem?-append_last, get_elem?-append, Option-cases,
}
use stack_graphs_muffet.Graph.Strings.{
  Bytes, Buffer, InternedStringArena, InternedStringContent, new, with_capacity, double_until,
  next_power_of_two, extend_from_slice, make_room, add, slice, buffers, read_buffer, as_str,
}

double_until-le : (fuel p n : ℕ) → n ≤ p + fuel → 0 < p → n ≤ double_until fuel p n
unfolding double_until
double_until-le zero p n h hp = omega (arith, h)
double_until-le (suc fuel) p n h hp = elim (Bool-cases (leb n p)) [
  | inl enough ↦ ground (arith, enough)
  | inr more ↦
      let rest = double_until-le fuel (2 * p) n (omega (arith, h, hp)) (omega (arith, hp)) in
      ground (arith, more, rest)
]

-- `next_power_of_two` is at least its argument.
next_power_of_two-le : (n : ℕ) → n ≤ next_power_of_two n
next_power_of_two-le n =
    unfold next_power_of_two in double_until-le n 1 n (omega arith) (omega arith)

-- The current buffer has no more bytes than its capacity, and its memory has never been reallocated.
pub record IsValid (a : InternedStringArena) : Type 0 where
  pub fits : length a.current_buffer.bytes ≤ a.current_buffer.capacity
  pub in_place : a.current_buffer.version ≡ 0

-- There is room for the string in the buffer that `add` writes to.
make_room-fits :
    (a : InternedStringArena) (len : ℕ)
    → IsValid a
    → length (make_room a len).current_buffer.bytes + len
      ≤ (make_room a len).current_buffer.capacity
make_room-fits a len v =
    elim (Bool-cases (ltb (a.current_buffer.capacity - length a.current_buffer.bytes) len)) [
      | inl short ↦
          let big = next_power_of_two-le (max a.current_buffer.capacity len + 1) in
          let step : (make_room a len).current_buffer
              ≡ with_capacity (next_power_of_two (max a.current_buffer.capacity len + 1)) =
            unfold make_room in ground (arith, short) in
          subst (λ (b : Buffer). length b.bytes + len ≤ b.capacity) (sym step) (omega (arith, big))
      | inr room ↦
          let step : (make_room a len).current_buffer ≡ a.current_buffer =
            unfold make_room in ground (arith, room) in
          subst (λ (b : Buffer). length b.bytes + len ≤ b.capacity) (sym step) (enough room v.fits)
    ]
  where
    enough :
        ltb (a.current_buffer.capacity - length a.current_buffer.bytes) len ≡ false
        → length a.current_buffer.bytes ≤ a.current_buffer.capacity
        → length a.current_buffer.bytes + len ≤ a.current_buffer.capacity
    enough e f = ground (arith, e, f)

make_room-version :
    (a : InternedStringArena) (len : ℕ) → IsValid a → (make_room a len).current_buffer.version ≡ 0
unfolding make_room
make_room-version a len v =
    elim (Bool-cases (ltb (a.current_buffer.capacity - length a.current_buffer.bytes) len)) [
      | inl short ↦ ground (arith, short)
      | inr room ↦ ground (arith, room, v.in_place)
    ]

-- `add` writes in place.
extend-in_place :
    (b : Buffer) (value : Bytes)
    → length b.bytes + length value ≤ b.capacity
    → extend_from_slice b value ≡ record b { bytes = b.bytes ++ value }
unfolding extend_from_slice
extend-in_place b value h = ground (arith, h)

slice-append :
    (bs cs : Bytes) (i n : ℕ) (w : Bytes) → slice bs i n ≡ some w → slice (bs ++ cs) i n ≡ some w
unfolding slice
slice-append bs cs zero zero w e = e
slice-append [] cs zero (suc n) w e = absurd (ground (arith, e))
slice-append (b ∷ bs) cs zero (suc n) w e = elim (Option-cases (slice bs zero n)) [
  | inl out ↦ absurd (ground (arith, e, out))
  | inr (rest, at) ↦ ground (arith, e, at, slice-append bs cs zero n rest at)
]
slice-append [] cs (suc i) n w e = absurd (ground (arith, e))
slice-append (b ∷ bs) cs (suc i) n w e = slice-append bs cs i n w e

slice-whole : (cs : Bytes) → slice cs zero (length cs) ≡ some cs
unfolding slice
slice-whole [] = refl
slice-whole (c ∷ cs) = ground (arith, slice-whole cs)

slice-end : (bs cs : Bytes) → slice (bs ++ cs) (length bs) (length cs) ≡ some cs
unfolding slice
slice-end [] cs = slice-whole cs
slice-end (b ∷ bs) cs = slice-end bs cs

-- The last of some buffers is another one.
last-changed :
    (bs : List Buffer) (old now b : Buffer) (i : ℕ)
    → get_elem? (bs ++ old ∷ []) i ≡ some b
    → (get_elem? (bs ++ now ∷ []) i ≡ some b)
      ⊎ ((b ≡ old) × (get_elem? (bs ++ now ∷ []) i ≡ some now))
last-changed [] old now b zero e = inr (ground (arith, e), refl)
last-changed [] old now b (suc i) e = absurd (ground (arith, e))
last-changed (x ∷ bs) old now b zero e = inl e
last-changed (x ∷ bs) old now b (suc i) e = last-changed bs old now b i e

-- Each string of `a` is the same string of `b`.
pub record Keeps (a b : InternedStringArena) : Type 0 where
  pub kept : (c : InternedStringContent) (w : Bytes) → as_str a c ≡ some w → as_str b c ≡ some w

Keeps-trans : (a b c : InternedStringArena) → Keeps a b → Keeps b c → Keeps a c
Keeps-trans a b c k l = record { kept = λ s w e. l.kept s w (k.kept s w e) }

-- A read that succeeds is of a buffer.
as_str-buffer :
    (a : InternedStringArena) (c : InternedStringContent) (w : Bytes)
    → as_str a c ≡ some w
    → (b : Buffer) × (get_elem? (buffers a) c.buffer ≡ some b) × (read_buffer (some b) c ≡ some w)
as_str-buffer a c w e = elim (Option-cases (get_elem? (buffers a) c.buffer)) [
  | inl out ↦
      let gone : as_str a c ≡ none = unfold as_str in ap (λ z. read_buffer z c) out in
      absurd (ground (arith, e, gone))
  | inr (b, at) ↦
      let same : as_str a c ≡ read_buffer (some b) c =
        unfold as_str in ap (λ z. read_buffer z c) at in
      (b, at, sym same ∙ e)
]

as_str-at :
    (a : InternedStringArena) (c : InternedStringContent) (b : Buffer)
    → get_elem? (buffers a) c.buffer ≡ some b
    → as_str a c ≡ read_buffer (some b) c
unfolding as_str
as_str-at a c b at = ap (λ z. read_buffer z c) at

make_room-Keeps : (a : InternedStringArena) (len : ℕ) → Keeps a (make_room a len)
make_room-Keeps a len =
    elim (Bool-cases (ltb (a.current_buffer.capacity - length a.current_buffer.bytes) len)) [
      | inl short ↦
          let fresh = with_capacity (next_power_of_two (max a.current_buffer.capacity len + 1)) in
          let step : make_room a len ≡ record {
            current_buffer = fresh;
            full_buffers = a.full_buffers ++ a.current_buffer ∷ [];
          } =
            unfold make_room in ground (arith, short) in
          subst (Keeps a) (sym step) (record {
            kept = λ c w e.
                let found = as_str-buffer a c w e in
                as_str-at
                  (record {
                    current_buffer = fresh;
                    full_buffers = a.full_buffers ++ a.current_buffer ∷ [];
                  })
                  c found.0 (get_elem?-append (buffers a) c.buffer found.0 fresh found.1)
                ∙ found.2;
          })
      | inr room ↦
          let step : make_room a len ≡ a = unfold make_room in ground (arith, room) in
          subst (Keeps a) (sym step) (record { kept = λ c w e. e })
    ]

-- Bytes are added to the current buffer, in place.
append-Keeps :
    (a : InternedStringArena) (value : Bytes)
    → Keeps a (record a {
      current_buffer = record a.current_buffer { bytes = a.current_buffer.bytes ++ value };
    })
append-Keeps a value = record {
  kept = λ c w e.
      let now : Buffer = record a.current_buffer { bytes = a.current_buffer.bytes ++ value } in
      let after : InternedStringArena = record a { current_buffer = now } in
      let found = as_str-buffer a c w e in
      elim (last-changed a.full_buffers a.current_buffer now found.0 c.buffer found.1) [
        | inl old ↦ as_str-at after c found.0 old ∙ found.2
        | inr (last, new_one) ↦
            as_str-at after c now new_one
            ∙ grown c w (ap (λ z. read_buffer (some z) c) (sym last) ∙ found.2)
      ];
}
  where
    grown :
        (c : InternedStringContent) (w : Bytes)
        → read_buffer (some a.current_buffer) c ≡ some w
        → read_buffer (some (record a.current_buffer { bytes = a.current_buffer.bytes ++ value })) c
          ≡ some w
    grown c w e = elim (Bool-cases (a.current_buffer.version == c.version)) [
      | inl same ↦
          ground (arith, e, same, slice-append a.current_buffer.bytes value c.start c.len w)
      | inr other ↦ absurd (ground (arith, e, other))
    ]

-- `add` writes behind the bytes of the current buffer, in place, after `make_room`.
add-in_place :
    (a : InternedStringArena) (value : Bytes)
    → IsValid a
    → (let room = make_room a (length value) in
        add a value ≡ (
          record room {
            current_buffer = record room.current_buffer {
              bytes = room.current_buffer.bytes ++ value;
            };
          },
          record {
            buffer = length room.full_buffers;
            version = room.current_buffer.version;
            start = length room.current_buffer.bytes;
            len = length value;
          },
        ))
unfolding add
add-in_place a value v =
    let room = make_room a (length value) in
    ap
      (λ (b : Buffer). (
        record room { current_buffer = b },
        record {
          buffer = length room.full_buffers;
          version = b.version;
          start = length room.current_buffer.bytes;
          len = length value;
        },
      ))
      (extend-in_place room.current_buffer value (make_room-fits a (length value) v))

pub new-IsValid : IsValid new
unfolding new
new-IsValid = record { fits = omega arith; in_place = refl }

-- If the current buffer has no more bytes than its capacity and its memory has never been reallocated, then
-- the same holds of the current buffer after `add`.
pub add-IsValid : (a : InternedStringArena) (value : Bytes) → IsValid a → IsValid (add a value).0
add-IsValid a value v =
    let room = make_room a (length value) in
    let size = length-append room.current_buffer.bytes value in
    subst (λ (z : InternedStringArena × InternedStringContent). IsValid z.0)
      (sym (add-in_place a value v))
      (record {
        fits = omega (arith, size, make_room-fits a (length value) v);
        in_place = make_room-version a (length value) v;
      })

-- The string that `add` returns reads as the bytes that were added.
pub add-as_str :
    (a : InternedStringArena) (value : Bytes)
    → IsValid a
    → as_str (add a value).0 (add a value).1 ≡ some value
add-as_str a value v =
    let room = make_room a (length value) in
    let now : Buffer = record room.current_buffer { bytes = room.current_buffer.bytes ++ value } in
    let after : InternedStringArena = record room { current_buffer = now } in
    let c : InternedStringContent = record {
      buffer = length room.full_buffers;
      version = room.current_buffer.version;
      start = length room.current_buffer.bytes;
      len = length value;
    } in
    let read : as_str after c ≡ some value =
      as_str-at after c now (get_elem?-append_last room.full_buffers now)
      ∙ ground (arith, slice-end room.current_buffer.bytes value) in
    subst (λ (z : InternedStringArena × InternedStringContent). as_str z.0 z.1 ≡ some value)
      (sym (add-in_place a value v)) read

pub add-Keeps : (a : InternedStringArena) (value : Bytes) → IsValid a → Keeps a (add a value).0
add-Keeps a value v =
    let room = make_room a (length value) in
    subst (λ (z : InternedStringArena × InternedStringContent). Keeps a z.0)
      (sym (add-in_place a value v))
      (Keeps-trans a room
        (record room {
          current_buffer = record room.current_buffer {
            bytes = room.current_buffer.bytes ++ value;
          };
        })
        (make_room-Keeps a (length value)) (append-Keeps room value))

-- A string that could be read before `add` reads as the same bytes after it, if the current buffer had no
-- more bytes than its capacity and its memory had never been reallocated.
pub add-as_str_old :
    (a : InternedStringArena) (value : Bytes) (c : InternedStringContent) (w : Bytes)
    → IsValid a
    → as_str a c ≡ some w
    → as_str (add a value).0 c ≡ some w
add-as_str_old a value c w v e = let k = add-Keeps a value v in k.kept c w e
