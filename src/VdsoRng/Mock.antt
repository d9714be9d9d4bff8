-- ===== src/VdsoRng/Mock.antt =====
-- crates/vdso-rng/src/vdso_miri.rs: the function that stands for `vgetrandom` in tests.
use useless.Base.{
  replicate, zero, ◌++◌, drop, ◌⊎◌, ◌≢◌, ◌∙◌, ℕ, suc, ◌+◌, ◌*◌, ◌%◌, ◌^◌, ◌-◌, ◌≤◌, ◌<◌, ◌≡◌, refl,
  ap, subst, List, [], ◌∷◌, Option, none, some, if◌then◌else◌, ◌==◌, ℤ, pos, negsuc, length, take,
  All, Bool-cases, inl, inr, arith,
}
use useless.VdsoRng.Config.{Params}
use useless.VdsoRng.LocalState.{VdsoFunc}
use useless.VdsoRng.LocalState.Promises.{VdsoFuncLaws}

-- `size_of::<usize>()`.
abbrev pub word_size : ℕ
word_size = 8

-- The counters in the states, and the parameters where a query wrote them.
pub record Memory : Type 0 where
  pub counter : ℕ → ℕ
  pub params : ℕ → Option Params

-- Sets the value of a function at one address.
abbrev pub at : {A : Type 0} → ℕ → A → (ℕ → A) → ℕ → A
at address value m a = if a == address then value else m a

abbrev pub mock_params : Params
mock_params = record {
  size_of_opaque_states = word_size;
  mmap_prot = 0;
  mmap_flags = 0;
  reserved = replicate 13 0;
}

-- The loop over the bytes of the buffer: the counter and the buffer after it, and the bytes written. It
-- ends early behind a multiple of 37.
unfoldable pub write_bytes : ℕ → List ℕ → ℕ × List ℕ × ℕ
write_bytes current [] = (current, [], 0)
write_bytes current (byte ∷ bytes) =
    let next : ℕ = (current + 1) % 2 ^ 64 in
    let rest : ℕ × List ℕ × ℕ = write_bytes next bytes in
    if current % 37 == 0
    then (next, (current % 256) ∷ bytes, 1)
    else (rest.0, (current % 256) ∷ rest.1, suc rest.2)

-- `mocked_vgetrandom`; `none` is a failed assertion.
unfoldable pub mocked_vgetrandom :
    Memory → List ℕ → (udata udata_len : ℕ) → Option (Memory × List ℕ × ℤ)
unfolding write_bytes
mocked_vgetrandom m buf udata udata_len =
    let r : ℕ × List ℕ × ℕ = write_bytes (m.counter udata) buf in
    if udata_len == 2 ^ 64 - 1
    then some (record m { params = at udata (some mock_params) m.params }, buf, pos 0)
    else if udata_len == word_size
    then some (record m { counter = at udata r.0 m.counter }, r.1, pos r.2)
    else none

-- `mocked_vgetrandom` with the length of its states, for callers that give no other.
abbrev pub mock : VdsoFunc
mock = record {
  World = Memory;
  call = λ m buf flags state size.
      let r : ℕ × List ℕ × ℕ = write_bytes (m.counter state) buf in
      (record m { counter = at state r.0 m.counter }, r.1, pos r.2);
}

-- `get_function_and_page_size` of vdso_miri.rs, with its `PAGE_SIZE`, and `guess_cpu_count` of utils.rs
-- for miri.
abbrev pub mock_page_size : ℕ
mock_page_size = 8 * word_size

abbrev pub mock_function_and_page_size :
    Option ((Memory → List ℕ → (udata udata_len : ℕ) → Option (Memory × List ℕ × ℤ)) × ℕ)
mock_function_and_page_size = some (mocked_vgetrandom, mock_page_size)

abbrev pub mock_cpu_count : ℕ
mock_cpu_count = 4

-- With the length of its states, the mock does not fail its assertion.
mock-mocked_vgetrandom :
    (m : Memory) (buf : List ℕ) (flags state : ℕ)
    → mocked_vgetrandom m buf state word_size ≡ some (mock.call m buf flags state word_size)
unfolding mocked_vgetrandom
mock-mocked_vgetrandom m buf flags state = refl

write_bytes-length : (u : ℕ) (buf : List ℕ) → length (write_bytes u buf).1 ≡ length buf
unfolding write_bytes
write_bytes-length u [] = refl
write_bytes-length u (b ∷ bs) = ground (arith, write_bytes-length ((u + 1) % 2 ^ 64) bs)

write_bytes_number :
    (u : ℕ) (buf : List ℕ)
    → ((write_bytes u buf).2 ≤ length buf) × (0 < length buf → 0 < (write_bytes u buf).2)
unfolding write_bytes
write_bytes_number u [] = (omega arith, λ h. omega arith)
write_bytes_number u (b ∷ bs) = ground (arith, write_bytes_number ((u + 1) % 2 ^ 64) bs)

magnitude : ℤ → ℕ
magnitude (pos n) = n
magnitude (negsuc n) = n

pos_injective : (m n : ℕ) → pos m ≡ pos n → m ≡ n
unfolding magnitude
pos_injective m n e = ap magnitude e

pos_not_negsuc : (m n : ℕ) → ¬ (pos m ≡ negsuc n)
pos_not_negsuc m n e = cc e

byte_bound : (u : ℕ) → u % 256 < 256
byte_bound u = omega arith

write_bytes-All :
    (u : ℕ) (buf : List ℕ) → All (λ x. x < 256) (take (write_bytes u buf).2 (write_bytes u buf).1)
unfolding write_bytes
write_bytes-All u [] = tt
write_bytes-All u (b ∷ bs) = elim (Bool-cases (u % 37 == 0)) [
  | inl e ↦ rw e (byte_bound u, tt)
  | inr e ↦ rw e (byte_bound u, write_bytes-All ((u + 1) % 2 ^ 64) bs)
]

-- What `fill` relies on, for callers that give the length of its states.
pub mock-VdsoFuncLaws : VdsoFuncLaws mock (λ x. x < 256) (λ m. 0)
mock-VdsoFuncLaws = record {
  length-call = λ m buf flags state size. write_bytes-length (m.counter state) buf;
  writes = λ m buf flags state size n e.
      let same : (write_bytes (m.counter state) buf).2 ≡ n = pos_injective _ _ e in
      (
        subst (λ (x : ℕ). x ≤ length buf) same (write_bytes_number (m.counter state) buf).0,
        subst (λ (x : ℕ). All (λ y. y < 256) (take x (write_bytes (m.counter state) buf).1)) same
            (write_bytes-All (m.counter state) buf),
      );
  moves_on = λ m buf flags state size n e nonempty.
      subst (λ (x : ℕ). 0 < x) (pos_injective _ _ e)
        ((write_bytes_number (m.counter state) buf).1 nonempty);
  small_errno = λ m buf flags state size n e. absurd (pos_not_negsuc _ _ e);
  retries_le = λ m buf flags state size. omega arith;
  retries_lt = λ m buf flags state size n e again. absurd (pos_not_negsuc _ _ e);
}

-- The bytes of `n` counters from `u` on.
unfoldable pub counted_bytes : ℕ → ℕ → List ℕ
counted_bytes u zero = []
counted_bytes u (suc n) = (u % 256) ∷ counted_bytes ((u + 1) % 2 ^ 64) n

write_bytes-counted_bytes :
    (u : ℕ) (buf : List ℕ)
    → (write_bytes u buf).1
      ≡ counted_bytes u (write_bytes u buf).2 ++ drop (write_bytes u buf).2 buf
unfolding write_bytes counted_bytes
write_bytes-counted_bytes u [] = refl
write_bytes-counted_bytes u (b ∷ bs) = elim (Bool-cases (u % 37 == 0)) [
  | inl e ↦ rw e refl
  | inr e ↦ rw e (ap (λ xs. (u % 256) ∷ xs) (write_bytes-counted_bytes ((u + 1) % 2 ^ 64) bs))
]

write_bytes_counter :
    (u : ℕ) (buf : List ℕ) → (write_bytes u buf).0 % 2 ^ 64 ≡ (u + (write_bytes u buf).2) % 2 ^ 64
unfolding write_bytes
write_bytes_counter u [] = omega arith
write_bytes_counter u (b ∷ bs) = elim (Bool-cases (u % 37 == 0)) [
  | inl e ↦ rw e (omega arith)
  | inr e ↦ rw e (omega (arith, write_bytes_counter ((u + 1) % 2 ^ 64) bs))
]

moves_on_or_empty : (u : ℕ) (buf : List ℕ) → (length buf ≡ 0) ⊎ (0 < (write_bytes u buf).2)
unfolding write_bytes
moves_on_or_empty u [] = inl refl
moves_on_or_empty u (b ∷ bs) = inr (ground arith)

-- What a call does: a query writes the parameters and nothing else; a call with the length of a state
-- writes bytes; any other fails the assertion.
unfoldable pub Mocked :
    Memory → List ℕ → (udata udata_len : ℕ) → Option (Memory × List ℕ × ℤ) → Type 0
Mocked m buf udata udata_len none = (udata_len ≢ 2 ^ 64 - 1) × (udata_len ≢ 8)
Mocked m buf udata udata_len (some (m', buf', r)) =
    ((udata_len ≡ 2 ^ 64 - 1)
      × (m'.params udata ≡ some mock_params)
      × (m'.counter ≡ m.counter)
      × (buf' ≡ buf)
      × (r ≡ pos 0))
    ⊎ ((udata_len ≡ 8)
        × (m'.params ≡ m.params)
        × ((n : ℕ) × (r ≡ pos n)
            × (n ≤ length buf)
            × ((length buf ≡ 0) ⊎ (0 < n))
            × (buf' ≡ counted_bytes (m.counter udata) n ++ drop n buf)
            × (m'.counter udata % 2 ^ 64 ≡ (m.counter udata + n) % 2 ^ 64)))

at_same : {A : Type 0} (address : ℕ) (value : A) (f : ℕ → A) → at address value f address ≡ value
at_same address value f = ground arith

-- For every length that it is called with: `mocked_vgetrandom` fails its assertion unless the length is
-- `usize::MAX` or that of a state. With `usize::MAX` it writes the parameters, leaves the counters and the
-- buffer, and returns 0. With that of a state it returns a number of bytes of the buffer, 0 only if
-- the buffer is empty; it has written so many successive counters, as bytes, in front of the rest of the
-- buffer, and moved the state's counter on by them.
pub mocked_vgetrandom-Mocked :
    (m : Memory) (buf : List ℕ) (udata udata_len : ℕ)
    → Mocked m buf udata udata_len (mocked_vgetrandom m buf udata udata_len)
unfolding mocked_vgetrandom Mocked
mocked_vgetrandom-Mocked m buf udata udata_len =
    let u : ℕ = m.counter udata in
    elim (Bool-cases (udata_len == 2 ^ 64 - 1)) [
      | inl e ↦
          rw e
            (inl (ground (arith, e), at_same udata (some mock_params) m.params, refl, refl, refl))
      | inr e ↦ elim (Bool-cases (udata_len == word_size)) [
        | inl e' ↦
            rw (e, e')
              (inr (
                ground (arith, e'),
                refl,
                (
                  (write_bytes u buf).2,
                  refl,
                  (write_bytes_number u buf).0,
                  moves_on_or_empty u buf,
                  write_bytes-counted_bytes u buf,
                  ap (λ c. c % 2 ^ 64) (at_same udata (write_bytes u buf).0 m.counter)
                      ∙ write_bytes_counter u buf,
                ),
              ))
        | inr e' ↦ rw (e, e') (λ h. ground (arith, e, h), λ h. ground (arith, e', h))
      ]
    ]
