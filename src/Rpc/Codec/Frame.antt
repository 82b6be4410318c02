-- ===== src/Rpc/Codec/Frame.antt =====
-- src/tudou/rpc/binary/BinaryRpcCodec.h: what the codec promises, on plain lists of bytes.
use tudou.Prelude.{
  ℕ, ◌+◌, ◌^◌, ◌≤◌, ◌<◌, ◌≡◌, refl, ap, ◌∙◌, sym, List, ◌∷◌, ◌++◌, arith, length, take, drop, ltb,
  ◌==◌, if◌then◌else◌, length-append, take-append_le, take-append, drop-append, take-append-drop,
  length-drop, drop-drop, drop-append_add, append_assoc, le→ltb, lt→ltb, ltb→lt, true, false, inl,
  inr, Bool-cases,
}
use native.Mathlib.Nat.{add_assoc}
use tudou.Rpc.Protocol.{
  RpcHeader, rpc_magic, rpc_header_size, to_be, header_bytes, from_be-to_be_2, from_be-to_be_4,
  from_be-to_be_8, from_be-byte,
}
use tudou.Rpc.Codec.{DecodeResult, success, empty, half_pack, error, parse_header}

-- A frame on the wire.
abbrev pub frame : RpcHeader → List ℕ → List ℕ → List ℕ
frame h meta_bytes body_bytes = header_bytes h ++ (meta_bytes ++ body_bytes)

-- Splits the first frame off a stream; what follows it is left for the next call.
unfoldable pub split_frame : List ℕ → DecodeResult × List ℕ
split_frame q =
    let h = parse_header (take rpc_header_size q) in
    if ltb (length q) rpc_header_size
    then (empty, q)
    else if h.magic == rpc_magic
    then if ltb (length q) (rpc_header_size + h.meta_len + h.body_len) then (half_pack, q) else (
      success h (take h.meta_len (drop rpc_header_size q))
          (take h.body_len (drop (rpc_header_size + h.meta_len) q)),
      drop (rpc_header_size + h.meta_len + h.body_len) q,
    )
    else (error, q)

-- The header's fields fit their widths.
pub record InRange (h : RpcHeader) : Type 0 where
  pub magic_16 : h.magic < 2 ^ 16
  pub version_8 : h.version < 2 ^ 8
  pub type_8 : h.type < 2 ^ 8
  pub sequence_id_64 : h.sequence_id < 2 ^ 64
  pub meta_len_32 : h.meta_len < 2 ^ 32
  pub body_len_32 : h.body_len < 2 ^ 32

pub length-header_bytes : (h : RpcHeader) → length (header_bytes h) ≡ rpc_header_size
unfolding header_bytes to_be
length-header_bytes h = refl

-- The fields of a header in range are read back from its 20 bytes.
pub parse_header-header_bytes : (h : RpcHeader) → InRange h → parse_header (header_bytes h) ≡ h
unfolding parse_header header_bytes to_be
parse_header-header_bytes h r = λ i. record {
  magic = from_be-to_be_2 h.magic r.magic_16 i;
  version = from_be-byte h.version i;
  type = from_be-byte h.type i;
  sequence_id = from_be-to_be_8 h.sequence_id r.sequence_id_64 i;
  meta_len = from_be-to_be_4 h.meta_len r.meta_len_32 i;
  body_len = from_be-to_be_4 h.body_len r.body_len_32 i;
}

-- The frame with what follows it, nested to the right.
abbrev stream : RpcHeader → List ℕ → List ℕ → List ℕ → List ℕ
stream h meta_bytes body_bytes rest = header_bytes h ++ (meta_bytes ++ (body_bytes ++ rest))

stream-eq :
    (h : RpcHeader) (meta_bytes body_bytes rest : List ℕ)
    → frame h meta_bytes body_bytes ++ rest ≡ stream h meta_bytes body_bytes rest
stream-eq h meta_bytes body_bytes rest =
    append_assoc (header_bytes h) (meta_bytes ++ body_bytes) rest
    ∙ ap (◌++◌ (header_bytes h)) (append_assoc meta_bytes body_bytes rest)

take-header :
    (h : RpcHeader) (xs : List ℕ) → take rpc_header_size (header_bytes h ++ xs) ≡ header_bytes h
unfolding header_bytes to_be
take-header h xs = refl

drop-header :
    (h : RpcHeader) (n : ℕ) (xs : List ℕ)
    → drop (rpc_header_size + n) (header_bytes h ++ xs) ≡ drop n xs
drop-header h n xs =
    ap (λ k. drop (k + n) (header_bytes h ++ xs)) (sym (length-header_bytes h))
    ∙ drop-append_add n (header_bytes h) xs

-- A stream that begins with the 20 bytes of `h` is read by `h`.
split_frame-header :
    (h : RpcHeader) (xs : List ℕ)
    → InRange h
    → h.magic ≡ rpc_magic
    → split_frame (header_bytes h ++ xs) ≡ (
        if ltb (length xs) (h.meta_len + h.body_len) then (half_pack, header_bytes h ++ xs) else (
          success h (take h.meta_len xs) (take h.body_len (drop h.meta_len xs)),
          drop (h.meta_len + h.body_len) xs,
        ))
unfolding split_frame
split_frame-header h xs r e =
    rw (take-header h xs, parse_header-header_bytes h r, long, magic)
      (elim (Bool-cases (ltb (length xs) total)) [
        | inl short ↦ rw (short, lt→ltb _ _ (less short))
        | inr enough ↦ rw (
          enough,
          le→ltb _ _ (more enough),
          drop-header h 0 xs,
          drop-header h h.meta_len xs,
          ends,
        )
      ])
  where
    total : ℕ
    total = h.meta_len + h.body_len

    size : length (header_bytes h ++ xs) ≡ rpc_header_size + length xs
    size = omega (arith, length-append (header_bytes h) xs, length-header_bytes h)

    long : ltb (length (header_bytes h ++ xs)) rpc_header_size ≡ false
    long = le→ltb _ _ (omega (arith, size))

    magic : (h.magic == rpc_magic) ≡ true
    magic = ground arith

    less :
        ltb (length xs) total ≡ true
        → length (header_bytes h ++ xs) < rpc_header_size + h.meta_len + h.body_len
    less short = omega (arith, size, ltb→lt (length xs) total short)

    more :
        ltb (length xs) total ≡ false
        → rpc_header_size + h.meta_len + h.body_len ≤ length (header_bytes h ++ xs)
    more enough = ground (arith, size)

    ends : drop (rpc_header_size + h.meta_len + h.body_len) (header_bytes h ++ xs) ≡ drop total xs
    ends =
        ap (λ k. drop k (header_bytes h ++ xs)) (add_assoc rpc_header_size h.meta_len h.body_len)
        ∙ drop-header h total xs

-- Whatever the version byte, a frame in range with the right magic number and the lengths of its
-- payloads is split off the stream whole, and what follows it is left.
pub split_frame-frame :
    (h : RpcHeader) (meta_bytes body_bytes rest : List ℕ)
    → InRange h
    → h.magic ≡ rpc_magic
    → h.meta_len ≡ length meta_bytes
    → h.body_len ≡ length body_bytes
    → split_frame (frame h meta_bytes body_bytes ++ rest) ≡ (success h meta_bytes body_bytes, rest)
split_frame-frame h meta_bytes body_bytes rest r em el eb =
    ap split_frame (stream-eq h meta_bytes body_bytes rest)
    ∙ split_frame-header h payload r em
    ∙ rw (le→ltb (length payload) (h.meta_len + h.body_len) long)
        (λ i. (success h (meta i) (body i), left i))
  where
    payload : List ℕ
    payload = meta_bytes ++ (body_bytes ++ rest)

    long : h.meta_len + h.body_len ≤ length payload
    long =
        omega (arith, length-append meta_bytes (body_bytes ++ rest), length-append body_bytes rest)

    meta : take h.meta_len payload ≡ meta_bytes
    meta = ap (λ k. take k payload) el ∙ take-append meta_bytes (body_bytes ++ rest)

    behind_meta : drop h.meta_len payload ≡ body_bytes ++ rest
    behind_meta = ap (λ k. drop k payload) el ∙ drop-append meta_bytes (body_bytes ++ rest)

    body : take h.body_len (drop h.meta_len payload) ≡ body_bytes
    body =
        ap (take h.body_len) behind_meta
        ∙ ap (λ k. take k (body_bytes ++ rest)) eb
        ∙ take-append body_bytes rest

    left : drop (h.meta_len + h.body_len) payload ≡ rest
    left =
        sym (drop-drop h.body_len h.meta_len payload)
        ∙ ap (drop h.body_len) behind_meta
        ∙ ap (λ k. drop k (body_bytes ++ rest)) eb
        ∙ drop-append body_bytes rest

split_frame_short : (p : List ℕ) → length p < rpc_header_size → split_frame p ≡ (empty, p)
unfolding split_frame
split_frame_short p h = rw (lt→ltb (length p) rpc_header_size h)

-- On every proper prefix of a frame the decoder asks for more and takes nothing: it answers
-- `Empty` below the 20 bytes of a header, and `HalfPack` from there on.
split_frame_prefix :
    (h : RpcHeader) (meta_bytes body_bytes p : List ℕ) (x : ℕ) (s : List ℕ)
    → InRange h
    → h.magic ≡ rpc_magic
    → h.meta_len ≡ length meta_bytes
    → h.body_len ≡ length body_bytes
    → frame h meta_bytes body_bytes ≡ p ++ (x ∷ s)
    → split_frame p ≡ (if ltb (length p) rpc_header_size then empty else half_pack, p)
split_frame_prefix h meta_bytes body_bytes p x s r em el eb e =
    elim (Bool-cases (ltb (length p) rpc_header_size)) [
      | inl short ↦ rw short (split_frame_short p (ltb→lt (length p) rpc_header_size short))
      | inr long ↦
          let begins = parts (ground arith) in
          rw long (
            ap split_frame begins
            ∙ split_frame-header h xs r em
            ∙ rw (lt→ltb (length xs) (h.meta_len + h.body_len) (few (ground arith)), sym begins))
    ]
  where
    xs : List ℕ
    xs = drop rpc_header_size p

    parts : rpc_header_size ≤ length p → p ≡ header_bytes h ++ xs
    parts long =
        sym (take-append-drop rpc_header_size p)
        ∙ ap (λ front. front ++ xs)
            (sym (take-append_le rpc_header_size p (x ∷ s) long)
              ∙ ap (take rpc_header_size) (sym e)
              ∙ take-header h (meta_bytes ++ body_bytes))

    few : rpc_header_size ≤ length p → length xs < h.meta_len + h.body_len
    few long = omega (
      arith,
      ap length e,
      length-drop rpc_header_size p,
      length-append p (x ∷ s),
      length-append (header_bytes h) (meta_bytes ++ body_bytes),
      length-header_bytes h,
      length-append meta_bytes body_bytes,
    )
