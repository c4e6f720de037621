-- ===== src/Binary/Offset.antt =====
-- Jump offsets: four bytes, highest first.
use pigeonhole.Prelude.{
  ℕ, ◌+◌, ◌-◌, ◌*◌, ◌/◌, ◌%◌, ◌^◌, ◌≤◌, ◌<◌, ◌≡◌, refl, ◌⊎◌, inl, inr, get_elem?-some, some, List,
  [], ◌∷◌, ◌++◌, append_assoc, length, length-append, drop, drop-append, take, take-append_at,
  drop-append_at, length-take_le, get_elem?-add, ap, length-drop, arith,
}
use native.Mathlib.Decide.{dec_le}
use pigeonhole.Binary.{
  Buffer, ok, refused, offset_bytes, emit_offset, resolve_offset, update_data, offset_loop,
  read_offset,
}

abbrev offset_code : ℕ → List ℕ
offset_code n =
    (n / 256 / 256 / 256 % 256) ∷ (n / 256 / 256 % 256) ∷ (n / 256 % 256) ∷ (n % 256) ∷ []

offset_bytes_lem : (n : ℕ) → offset_bytes 4 n [] ≡ offset_code n
unfolding offset_bytes
offset_bytes_lem n = refl

read_offset_at :
    (code rest : List ℕ) (a n : ℕ)
    → n < 2 ^ 32
    → drop a code ≡ offset_code n ++ rest
    → read_offset code a ≡ ok (a + 4) n
unfolding read_offset offset_loop
read_offset_at code rest a n h d = ground (
  arith,
  ap length d,
  length-drop a code,
  get_elem?-add a 0 code,
  get_elem?-add a 1 code,
  get_elem?-add a 2 code,
  get_elem?-add a 3 code,
)

module _ (B : Buffer) where
  open B use {Buf, bytes, append, write, bytes-append, bytes-write}

  -- An emitted offset below 2^32 is read back at the address returned for it.
  pub read-emit_offset :
      (b : Buf) (n : ℕ) (rest : List ℕ)
      → n < 2 ^ 32
      → read_offset (bytes (emit_offset B b n).0 ++ rest) (emit_offset B b n).1
        ≡ ok (length (bytes (emit_offset B b n).0)) n
  unfolding emit_offset offset_bytes
  read-emit_offset b n rest h =
      rw (bytes-append, append_assoc, length-append)
        (read_offset_at _ rest (length (bytes b)) n h
          (drop-append (bytes b) (offset_code n ++ rest)))

  -- Resolving an offset whose four bytes stand at `address` in the block, less than 2^32 bytes in
  -- front of its end: it is afterwards the distance from there
  -- to the end of the block, the block is as long as before, and no other byte has changed.
  pub read-resolve_offset :
      (b : Buf) (address : ℕ)
      → address + 4 ≤ length (bytes b)
      → length (bytes b) - address < 2 ^ 32
      → (b' : Buf) × (resolve_offset B b address ≡ some b')
        × (read_offset (bytes b') address ≡ ok (address + 4) (length (bytes b) - address))
        × (take address (bytes b') ≡ take address (bytes b))
        × (drop (address + 4) (bytes b') ≡ drop (address + 4) (bytes b))
  unfolding resolve_offset update_data offset_bytes
  read-resolve_offset b address h k =
      let d : List ℕ = offset_code (length (bytes b) - address) in
      let front : List ℕ = take address (bytes b) in
      let back : List ℕ = drop (address + 4) (bytes b) in
      let written : bytes (write b address d) ≡ front ++ d ++ back = bytes-write b address d h in
      let at : length front ≡ address = length-take_le address (bytes b) (omega arith) in
      (
        write b address d,
        ground arith,
        read_offset_at _ back address _ k
            (rw (written, append_assoc) (drop-append_at address front (d ++ back) at)),
        rw (written, append_assoc) (take-append_at address front (d ++ back) at),
        rw written
            (drop-append_at (address + 4) (front ++ d) back (rw (length-append, at) (omega arith))),
      )

abbrev next : ℕ → ℕ → ℕ
next offs b = (offs * 256 % 2 ^ 32 + b) % 2 ^ 32

-- Reading an offset takes four bytes and stays inside the code; with fewer bytes left it is
-- refused where it stands. It never reads behind the end.
pub read_offset_cases :
    (code : List ℕ) (a : ℕ)
    → ((a + 4 ≤ length code) × ((n : ℕ) × (n < 2 ^ 32) × (read_offset code a ≡ ok (a + 4) n)))
      ⊎ ((length code < a + 4) × (read_offset code a ≡ refused a))
unfolding read_offset offset_loop
read_offset_cases code a = elim (dec_le (a + 4) (length code)) [
  | yes h ↦
      let (b0, e0) = get_elem?-some code a (omega arith) in
      let (b1, e1) = get_elem?-some code (a + 1) (omega arith) in
      let (b2, e2) = get_elem?-some code (a + 1 + 1) (omega arith) in
      let (b3, e3) = get_elem?-some code (a + 1 + 1 + 1) (omega arith) in
      inl (h, (next (next (next (next 0 b0) b1) b2) b3, omega arith, ground arith))
  | no h ↦ inr (omega arith, ground arith)
]
