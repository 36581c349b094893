-- ===== src/HashChain/Binding.antt =====
-- What the chain hash binds: two runs of `hashchain_update` that end in the same hash have hashed
-- the same messages, or a collision of the digest is in hand.
use mathlib.Core.List.{Mem, mem-cons_of_mem, mem-cons_self}
use mmhashchainsigs.Base.{
  Bool-cases, Bytes, List, Option, [], ap, arith, bind-id, bind-some, bytes_eq, bytes_eq_iff, inc64,
  inl, inr, length, refl, some, sym, ℕ, ◌++◌, ◌>>=◌, ◌∙◌, ◌∷◌, ◌≡◌, ◌≢◌, ◌⊎◌,
}
use mmhashchainsigs.Crypto.Alg.{HashAlg, hash_len}
use mmhashchainsigs.Crypto.Hash.{chain_init_hash, uint64_to_be}
use mmhashchainsigs.Crypto.Hash.Laws.{IsDigest, hash_chain-link, link}
use mmhashchainsigs.Crypto.Host.{Host}
use mmhashchainsigs.HashChain.{HashChain, chain_init, chain_update, started}

-- The eight bytes of a number are as many as those of another.
append_split : (a b s t : Bytes) → length a ≡ length b → a ++ s ≡ b ++ t → (a ≡ b) × (s ≡ t)
append_split [] [] s t l e = (refl, e)
append_split [] (y ∷ b) s t l e = absurd (omega arith)
append_split (x ∷ a) [] s t l e = absurd (omega arith)
append_split (x ∷ a) (y ∷ b) s t l e = ground (arith, append_split a b s t)

eight : (v w : ℕ) → length (uint64_to_be v) ≡ length (uint64_to_be w)
unfolding uint64_to_be
eight v w = refl

-- The parts of a text that is hashed.
pub split_text :
    {p q : Bytes} (n k : ℕ) (m l : Bytes)
    → length p ≡ length q
    → p ++ (uint64_to_be n ++ m) ≡ q ++ (uint64_to_be k ++ l)
    → (p ≡ q) × (uint64_to_be n ≡ uint64_to_be k) × (m ≡ l)
split_text {p} {q} n k m l same text =
    let (start, behind) = append_split p q _ _ same text in
    let (number, rest) = append_split (uint64_to_be n) (uint64_to_be k) m l (eight n k) behind in
    (start, number, rest)

-- Two different texts with the same digest, one from each list.
pub record Collision (hash : HashAlg → Bytes → Bytes) (alg : HashAlg) (xs ys : List Bytes)
    : Type 0 where
  pub one : Bytes
  pub other : Bytes
  pub one_in : Mem one xs
  pub other_in : Mem other ys
  pub different : one ≢ other
  pub same_digest : hash alg one ≡ hash alg other

pub same_or_Collision :
    {hash : HashAlg → Bytes → Bytes} (alg : HashAlg) {x y : Bytes} {xs ys : List Bytes}
    → Mem x xs
    → Mem y ys
    → hash alg x ≡ hash alg y
    → (x ≡ y) ⊎ Collision hash alg xs ys
same_or_Collision alg {x} {y} mx my e = elim (Bool-cases (bytes_eq x y)) [
  | inl same ↦ inl ((bytes_eq_iff x y).0 same)
  | inr not_same ↦ inr (record {
    one = x;
    other = y;
    one_in = mx;
    other_in = my;
    different = λ same. ground (arith, bytes_eq_iff x y);
    same_digest = e;
  })
]

later_Collision :
    {hash : HashAlg → Bytes → Bytes} {alg : HashAlg} (x y : Bytes) {xs ys : List Bytes}
    → Collision hash alg xs ys
    → Collision hash alg (x ∷ xs) (y ∷ ys)
later_Collision x y c = record {
  one = c.one;
  other = c.other;
  one_in = mem-cons_of_mem x c.one_in;
  other_in = mem-cons_of_mem y c.other_in;
  different = c.different;
  same_digest = c.same_digest;
}

module _ ⦃h : Host⦄ where
  -- `hashchain_update` on one message after the other.
  unfoldable pub chain_updates : HashChain → List Bytes → Option HashChain
  chain_updates c [] = some c
  chain_updates c (m ∷ ms) = do next ← chain_update c m; chain_updates next ms

  -- One message more.
  pub chain_updates-snoc :
      (c : HashChain) (ms : List Bytes) (m : Bytes) {e : HashChain}
      → chain_updates c ms ≡ some e
      → chain_updates c (ms ++ m ∷ []) ≡ chain_update e m
  unfolding chain_updates
  chain_updates-snoc c [] m r =
      bind-id (chain_update c m) ∙ ap (λ (x : HashChain). chain_update x m) (same_chain r)
    where
      same_chain : {x y : HashChain} → some x ≡ some y → x ≡ y
      same_chain e = ground arith
  chain_updates-snoc c (x ∷ ms) m r =
      let (y, e, rest) = bind-some (chain_update c x) _ r in rw e (chain_updates-snoc y ms m rest)

  -- What `hashchain_init` leaves where the digest succeeds.
  pub chain_init-start :
      (alg : HashAlg) {iv : Bytes}
      → chain_init_hash alg ≡ some iv
      → (chain_init alg).0
        ≡ record { alg = alg; hash_len = hash_len alg; current = iv; seq = 1; msg_count = 0 }
  unfolding chain_init started
  chain_init-start alg e = rw (e, chain_init) refl

module _ ⦃h : Host⦄ (hash : HashAlg → Bytes → Bytes) where
  abbrev pub extended : HashChain → Bytes → HashChain
  extended c m = record c {
    current = link hash c.alg c.current c.seq m;
    seq = inc64 c.seq;
    msg_count = inc64 c.msg_count;
  }

  -- The texts whose digests make the chain's hashes, one for each message.
  unfoldable pub hashed_texts : HashChain → List Bytes → List Bytes
  hashed_texts c [] = []
  hashed_texts c (m ∷ ms) =
      (c.current ++ (uint64_to_be c.seq ++ m)) ∷ hashed_texts (extended c m) ms

module _ ⦃h : Host⦄ {hash : HashAlg → Bytes → Bytes} (d : IsDigest hash) where
  chain_update-extended : (c : HashChain) (m : Bytes) → chain_update c m ≡ some (extended hash c m)
  unfolding chain_update
  chain_update-extended c m = rw (hash_chain-link d c.alg c.current c.seq m)

  pub chain_updates-cons :
      (c : HashChain) (m : Bytes) (ms : List Bytes)
      → chain_updates c (m ∷ ms) ≡ chain_updates (extended hash c m) ms
  unfolding chain_updates
  chain_updates-cons c m ms = rw (chain_update-extended c m)

  -- Two chains with one algorithm and one sequence number, whose hashes have the width of the
  -- algorithm, that hash as many messages each and end in the same hash, started from the same hash
  -- and hashed the same messages, unless two different texts have the same digest, one hashed by
  -- each chain. The digests are total and have their documented width.
  pub chain_updates-binding :
      (alg : HashAlg) (c c' : HashChain) (ms ns : List Bytes) {e e' : HashChain}
      → c.alg ≡ alg
      → c'.alg ≡ alg
      → c.seq ≡ c'.seq
      → length c.current ≡ hash_len alg
      → length c'.current ≡ hash_len alg
      → length ms ≡ length ns
      → chain_updates c ms ≡ some e
      → chain_updates c' ns ≡ some e'
      → e.current ≡ e'.current
      → ((c.current ≡ c'.current) × (ms ≡ ns))
        ⊎ Collision hash alg (hashed_texts hash c ms) (hashed_texts hash c' ns)
  unfolding chain_updates hashed_texts
  chain_updates-binding alg c c' [] [] ca ca' cs l l' n r r' end = inl (ground arith, refl)
  chain_updates-binding alg c c' [] (k ∷ ns) ca ca' cs l l' n r r' end = absurd (omega arith)
  chain_updates-binding alg c c' (m ∷ ms) [] ca ca' cs l l' n r r' end = absurd (omega arith)
  chain_updates-binding alg c c' (m ∷ ms) (k ∷ ns) ca ca' cs l l' n r r' end =
      elim (chain_updates-binding alg (extended hash c m) (extended hash c' k) ms ns ca ca'
        (ap inc64 cs) (d.hash_width c.alg _ ∙ ap hash_len ca)
        (d.hash_width c'.alg _ ∙ ap hash_len ca') (omega arith)
        (sym (chain_updates-cons c m ms) ∙ r) (sym (chain_updates-cons c' k ns) ∙ r') end) [
          | inr x ↦ inr (later_Collision _ _ x)
          | inl (joined, rest) ↦
              elim (same_or_Collision alg mem-cons_self mem-cons_self (
                ap (λ a. link hash a c.current c.seq m) (sym ca)
                ∙ joined
                ∙ ap (λ a. link hash a c'.current c'.seq k) ca')) [
                  | inl text ↦
                      let (start, number, same) = split_text c.seq c'.seq m k (l ∙ sym l') text in
                      inl (start, cc (same, rest))
                  | inr x ↦ inr x
                ]
        ]
