-- ===== src/Rpc/Codec/Cut.antt =====
-- src/tudou/rpc/binary/BinaryRpcCodec.h: the four results on a stream of bytes, and what more bytes
-- behind it change.
use tudou.Prelude.{
  ℕ, ◌+◌, ◌≤◌, ◌<◌, ◌≡◌, refl, ap, ◌∙◌, sym, subst, true, inl, inr, List, ◌++◌, arith, length, take,
  drop, ltb, ◌==◌, if◌then◌else◌, Bool-cases, le→ltb, length-append, length-drop, take-append_le,
  drop-append_le,
}
use tudou.Rpc.Protocol.{RpcHeader, rpc_magic, rpc_header_size}
use tudou.Rpc.Codec.{DecodeResult, success, empty, half_pack, error, parse_header}
use tudou.Rpc.Codec.Frame.{split_frame}

pub data Cut (q : List ℕ) : Type 0 where
  short : split_frame q ≡ (empty, q) → Cut q
  half : split_frame q ≡ (half_pack, q) → Cut q
  foreign :
      split_frame q ≡ (error, q)
      → ((more : List ℕ) → split_frame (q ++ more) ≡ (error, q ++ more))
      → Cut q
  whole :
      (h : RpcHeader) (meta_bytes body_bytes rest : List ℕ)
      → split_frame q ≡ (success h meta_bytes body_bytes, rest)
      → length rest < length q
      → ((more : List ℕ)
          → split_frame (q ++ more) ≡ (success h meta_bytes body_bytes, rest ++ more))
      → Cut q

-- The 20 bytes are there, and read as `h`.
record Headed (h : RpcHeader) (q : List ℕ) : Type 0 where
  reads : parse_header (take rpc_header_size q) ≡ h
  long : rpc_header_size ≤ length q

abbrev total : RpcHeader → ℕ
total h = rpc_header_size + h.meta_len + h.body_len

split_frame-Headed :
    (h : RpcHeader) (q : List ℕ)
    → Headed h q
    → split_frame q ≡ (
        if h.magic == rpc_magic
        then if ltb (length q) (total h) then (half_pack, q) else (
          success h
              (take h.meta_len (drop rpc_header_size q))
              (take h.body_len (drop (rpc_header_size + h.meta_len) q)),
          drop (total h) q,
        )
        else (error, q))
unfolding split_frame
split_frame-Headed h q a = rw (a.reads, le→ltb (length q) rpc_header_size a.long)

Headed-append : (h : RpcHeader) (q more : List ℕ) → Headed h q → Headed h (q ++ more)
Headed-append h q more a = record {
  reads = ap parse_header (take-append_le rpc_header_size q more a.long) ∙ a.reads;
  long = omega (arith, length-append q more, a.long);
}

-- A slice that lies in the first part of a stream is not changed by what follows.
slice-append :
    (n m : ℕ) (q more : List ℕ) → m + n ≤ length q → take n (drop m (q ++ more)) ≡ take n (drop m q)
slice-append n m q more h =
    ap (take n) (drop-append_le m q more (omega arith))
    ∙ take-append_le n (drop m q) more (omega (arith, length-drop m q))

split_frame_short :
    (q : List ℕ) → ltb (length q) rpc_header_size ≡ true → split_frame q ≡ (empty, q)
unfolding split_frame
split_frame_short q few = rw few

Cut-Headed : (h : RpcHeader) (q : List ℕ) → Headed h q → Cut q
Cut-Headed h q a = elim (Bool-cases (h.magic == rpc_magic)) [
  | inl ours ↦ elim (Bool-cases (ltb (length q) (total h))) [
    | inl few ↦ half (split_frame-Headed h q a ∙ rw (ours, few))
    | inr enough ↦
        let fits : total h ≤ length q = ground arith in
        whole h (take h.meta_len (drop rpc_header_size q))
          (take h.body_len (drop (rpc_header_size + h.meta_len) q)) (drop (total h) q)
          (split_frame-Headed h q a ∙ rw (ours, enough))
          (omega (arith, length-drop (total h) q, fits))
          (λ more.
            split_frame-Headed h (q ++ more) (Headed-append h q more a)
            ∙ rw
                (
                  ours,
                  le→ltb (length (q ++ more)) (total h) (omega (arith, length-append q more, fits)),
                )
                (λ i. (
                  success h (slice-append h.meta_len rpc_header_size q more (omega (arith, fits)) i)
                      (slice-append h.body_len (rpc_header_size + h.meta_len) q more fits i),
                  drop-append_le (total h) q more fits i,
                )))
  ]
  | inr theirs ↦
      foreign (split_frame-Headed h q a ∙ rw theirs)
        (λ more. split_frame-Headed h (q ++ more) (Headed-append h q more a) ∙ rw theirs)
]

-- Every stream is cut in one of the four ways.
pub split_frame-Cut : (q : List ℕ) → Cut q
split_frame-Cut q = elim (Bool-cases (ltb (length q) rpc_header_size)) [
  | inl few ↦ short (split_frame_short q few)
  | inr long ↦
      Cut-Headed (parse_header (take rpc_header_size q)) q
        (record { reads = refl; long = ground arith })
]

-- A frame that is split off is still split off when more bytes follow.
pub split_frame_grows :
    (q : List ℕ) {rest : List ℕ} (h : RpcHeader) (meta_bytes body_bytes : List ℕ)
    → split_frame q ≡ (success h meta_bytes body_bytes, rest)
    → (length rest < length q)
      × ((more : List ℕ)
          → split_frame (q ++ more) ≡ (success h meta_bytes body_bytes, rest ++ more))
split_frame_grows q h meta_bytes body_bytes found = elim (split_frame-Cut q) [
  | short e ↦ absurd (ground (arith, succeeds (sym e ∙ found)))
  | half e ↦ absurd (ground (arith, succeeds (sym e ∙ found)))
  | foreign e _ ↦ absurd (ground (arith, succeeds (sym e ∙ found)))
  | whole _ _ _ _ e shorter grows ↦
      subst
        (λ (o : DecodeResult × List ℕ).
          (length o.1 < length q)
          × ((more : List ℕ) → split_frame (q ++ more) ≡ (o.0, o.1 ++ more)))
        (sym e ∙ found) (shorter, grows)
]
  where
    succeeds :
        {r : DecodeResult} {a b : List ℕ}
        → ◌≡◌ {A = DecodeResult × List ℕ} (r, a) (success h meta_bytes body_bytes, b)
        → r ≡ success h meta_bytes body_bytes
    succeeds e = ap (λ o. o.0) e
