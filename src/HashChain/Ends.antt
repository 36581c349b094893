-- ===== src/HashChain/Ends.antt =====
-- Chains that end in the same hash have hashed the same messages, however many each has hashed.
use mathlib.Core.List.{Mem, mem-cons_of_mem, mem-cons_self}
use mathlib.Core.Path.{subst}
use mmhashchainsigs.Base.{
  Bytes, List, [], ap, arith, inc64, inc64-eq, inl, inr, length, refl, some, sym, u64_mod, ℕ, ◌++◌,
  ◌+◌, ◌<◌, ◌∙◌, ◌∷◌, ◌≡◌, ◌⊎◌,
}
use mmhashchainsigs.Crypto.Alg.{HashAlg, hash_len, sha256, sha384, sha512}
use mmhashchainsigs.Crypto.Hash.{chain_init_hash, chain_iv, uint64_to_be}
use mmhashchainsigs.Crypto.Hash.Laws.{IsDigest, link}
use mmhashchainsigs.Crypto.Host.{Host}
use mmhashchainsigs.HashChain.{HashChain, chain_init}
use mmhashchainsigs.HashChain.Binding.{
  Collision, chain_init-start, chain_updates, chain_updates-binding, chain_updates-cons, extended,
  hashed_texts, same_or_Collision, split_text,
}

uint64_to_be-injective :
    (v w : ℕ) → v < u64_mod → w < u64_mod → uint64_to_be v ≡ uint64_to_be w → v ≡ w
unfolding uint64_to_be
uint64_to_be-injective v w lv lw e = ground arith

hash_len-injective : (a b : HashAlg) → hash_len a ≡ hash_len b → a ≡ b
unfolding hash_len
hash_len-injective sha256 sha256 e = refl
hash_len-injective sha384 sha384 e = refl
hash_len-injective sha512 sha512 e = refl
hash_len-injective sha256 sha384 e = absurd (omega arith)
hash_len-injective sha256 sha512 e = absurd (omega arith)
hash_len-injective sha384 sha256 e = absurd (omega arith)
hash_len-injective sha384 sha512 e = absurd (omega arith)
hash_len-injective sha512 sha256 e = absurd (omega arith)
hash_len-injective sha512 sha384 e = absurd (omega arith)

-- The chain that `hashchain_init` starts.
abbrev pub first_chain : (HashAlg → Bytes → Bytes) → HashAlg → HashChain
first_chain hash alg = record {
  alg = alg;
  hash_len = hash_len alg;
  current = hash alg chain_iv;
  seq = 1;
  msg_count = 0;
}

-- The texts whose digests make the hashes of the chain over the messages, from its start on.
abbrev pub chain_texts : ⦃h : Host⦄ → (HashAlg → Bytes → Bytes) → HashAlg → List Bytes → List Bytes
chain_texts hash alg ms = hashed_texts hash (first_chain hash alg) ms

module _ ⦃h : Host⦄ {hash : HashAlg → Bytes → Bytes} (d : IsDigest hash) where
  -- The last message of a chain, as its hash holds it.
  record LastLink (alg : HashAlg) (texts : List Bytes) (e : HashChain) : Type 0 where
    prev : Bytes
    seq : ℕ
    msg : Bytes
    width : length prev ≡ hash_len alg
    hashed : e.current ≡ link hash alg prev seq msg
    counted : e.seq ≡ inc64 seq
    small : seq < u64_mod
    text_in : Mem (prev ++ (uint64_to_be seq ++ msg)) texts

  chain_updates-LastLink :
      (alg : HashAlg) (c : HashChain) (m : Bytes) (ms : List Bytes) {e : HashChain}
      → c.alg ≡ alg
      → length c.current ≡ hash_len alg
      → c.seq + length (m ∷ ms) < u64_mod
      → chain_updates c (m ∷ ms) ≡ some e
      → LastLink alg (hashed_texts hash c (m ∷ ms)) e
  unfolding chain_updates hashed_texts
  chain_updates-LastLink alg c m [] {e} a l few r =
      let last : extended hash c m ≡ e = same_chain (sym (chain_updates-cons d c m []) ∙ r) in
      record {
        prev = c.current;
        seq = c.seq;
        msg = m;
        width = l;
        hashed = cc (last, a);
        counted = cc last;
        small = omega (arith, few);
        text_in = mem-cons_self;
      }
    where
      same_chain : {x y : HashChain} → some x ≡ some y → x ≡ y
      same_chain e = ground arith
  chain_updates-LastLink alg c m (k ∷ ms) a l few r =
      let rest =
        chain_updates-LastLink alg (extended hash c m) k ms a (d.hash_width c.alg _ ∙ ap hash_len a)
          (omega (arith, few, inc64-eq c.seq (omega (arith, few))))
          (sym (chain_updates-cons d c m (k ∷ ms)) ∙ r) in
      record {
        prev = rest.prev;
        seq = rest.seq;
        msg = rest.msg;
        width = rest.width;
        hashed = rest.hashed;
        counted = rest.counted;
        small = rest.small;
        text_in = mem-cons_of_mem _ rest.text_in;
      }

  chain_updates-count :
      (c : HashChain) (ms : List Bytes) {e : HashChain}
      → chain_updates c ms ≡ some e
      → c.seq + length ms < u64_mod
      → e.seq ≡ c.seq + length ms
  unfolding chain_updates
  chain_updates-count c [] r few = ground arith
  chain_updates-count c (m ∷ ms) r few =
      let next = inc64-eq c.seq (omega (arith, few)) in
      chain_updates-count (extended hash c m) ms (sym (chain_updates-cons d c m ms) ∙ r)
        (omega (arith, few, next))
      ∙ omega (arith, next)

  -- The numbers of two last messages with the same hash are the same.
  LastLink-seq :
      (alg : HashAlg) (e e' : HashChain) {xs ys : List Bytes} (l : LastLink alg xs e)
      (l' : LastLink alg ys e')
      → e.current ≡ e'.current
      → (l.seq ≡ l'.seq) ⊎ Collision hash alg xs ys
  LastLink-seq alg e e' l l' same =
      elim (same_or_Collision alg l.text_in l'.text_in (sym l.hashed ∙ same ∙ l'.hashed)) [
        | inr c ↦ inr c
        | inl text ↦
            let (before, number, behind) =
              split_text l.seq l'.seq l.msg l'.msg (l.width ∙ sym l'.width) text in
            inl (uint64_to_be-injective l.seq l'.seq l.small l'.small number)
      ]

  LastLink-width :
      (alg : HashAlg) (e : HashChain) {xs : List Bytes}
      → LastLink alg xs e
      → length e.current ≡ hash_len alg
  LastLink-width alg e l = ap length l.hashed ∙ d.hash_width alg _

  pub chain_init-first : (alg : HashAlg) → (chain_init alg).0 ≡ first_chain hash alg
  unfolding chain_init_hash
  chain_init-first alg = chain_init-start alg (d.digest_total alg chain_iv)

  -- Two lists of messages, not empty and of less than 2^64 - 1, that chains hash to the same value.
  pub record SameEnd (alg alg' : HashAlg) (ms ns : List Bytes) : Type 0 where
    pub one : HashChain
    pub other : HashChain
    pub one_hashed : chain_updates ((chain_init alg).0) ms ≡ some one
    pub other_hashed : chain_updates ((chain_init alg').0) ns ≡ some other
    pub one_more : (0 < length ms) × (length ms + 1 < u64_mod)
    pub other_more : (0 < length ns) × (length ns + 1 < u64_mod)
    pub same : one.current ≡ other.current

  last_of :
      (alg : HashAlg) (ms : List Bytes) {e : HashChain}
      → (0 < length ms) × (length ms + 1 < u64_mod)
      → chain_updates ((chain_init alg).0) ms ≡ some e
      → LastLink alg (chain_texts hash alg ms) e
  last_of alg [] (p, few) r = absurd (omega arith)
  last_of alg (m ∷ rest) (p, few) r =
      chain_updates-LastLink alg (first_chain hash alg) m rest refl (d.hash_width alg chain_iv)
        (omega (arith, few))
        (ap (λ (c : HashChain). chain_updates c (m ∷ rest)) (sym (chain_init-first alg)) ∙ r)

  last_count :
      (alg : HashAlg) (ms : List Bytes) {e : HashChain}
      → length ms + 1 < u64_mod
      → chain_updates ((chain_init alg).0) ms ≡ some e
      → e.seq ≡ 1 + length ms
  last_count alg ms few r =
      chain_updates-count (first_chain hash alg) ms
        (ap (λ (c : HashChain). chain_updates c ms) (sym (chain_init-first alg)) ∙ r) (omega arith)

  same_ends :
      (alg : HashAlg) (ms ns : List Bytes)
      → SameEnd alg alg ms ns
      → (ms ≡ ns) ⊎ Collision hash alg (chain_texts hash alg ms) (chain_texts hash alg ns)
  same_ends alg ms ns s =
      let l = last_of alg ms s.one_more s.one_hashed in
      let l' = last_of alg ns s.other_more s.other_hashed in
      let one_seq = last_count alg ms s.one_more.1 s.one_hashed in
      let other_seq = last_count alg ns s.other_more.1 s.other_hashed in
      elim (LastLink-seq alg s.one s.other l l' s.same) [
        | inr c ↦ inr c
        | inl seq ↦
            let as_many : length ms ≡ length ns =
              omega (arith, sym one_seq ∙ l.counted ∙ ap inc64 seq ∙ sym l'.counted ∙ other_seq) in
            elim (chain_updates-binding d alg (first_chain hash alg) (first_chain hash alg) ms ns
              refl refl refl (d.hash_width alg chain_iv) (d.hash_width alg chain_iv) as_many
              (ap (λ (c : HashChain). chain_updates c ms) (sym (chain_init-first alg))
                ∙ s.one_hashed)
              (ap (λ (c : HashChain). chain_updates c ns) (sym (chain_init-first alg))
                ∙ s.other_hashed)
              s.same) [ inl (start, all) ↦ inl all | inr c ↦ inr c ]
      ]

  -- Chains that end in the same hash have hashed the same messages, whatever their algorithms and
  -- their numbers of messages: two lists, not empty and of less than 2^64 - 1 messages, that chains
  -- take from their initial hashes to the same hash are the same list, unless two different texts
  -- have the same digest, one hashed by each chain. The digests are total and have their documented
  -- width.
  pub SameEnd-binds :
      (alg alg' : HashAlg) (ms ns : List Bytes)
      → SameEnd alg alg' ms ns
      → (ms ≡ ns) ⊎ Collision hash alg (chain_texts hash alg ms) (chain_texts hash alg ns)
  SameEnd-binds alg alg' ms ns s =
      let l = last_of alg ms s.one_more s.one_hashed in
      let l' = last_of alg' ns s.other_more s.other_hashed in
      let same_alg : alg' ≡ alg = hash_len-injective alg' alg (
        sym (LastLink-width alg' s.other l')
        ∙ ap length (sym s.same)
        ∙ LastLink-width alg s.one l) in
      same_ends alg ms ns (subst (λ (a : HashAlg). SameEnd alg a ms ns) same_alg s)
