-- ===== src/Arp/Timer.antt =====
-- etharp_tmr of lwip/src/netif/etharp.c: entries grow old.
use ocaml_lwip.Base.{
  ℕ, zero, suc, ◌+◌, ◌<◌, ◌≡◌, refl, ap, sym, ◌∙◌, Bool, true, false, List, [], ◌∷◌, ◌++◌, inl, inr,
  arith, ltb, u8, if◌then◌else◌, get_or, length, Bool-cases, subst, Cmd, pure, ◌>>◌, Returns,
  returns, Returns-mono,
}
use ocaml_lwip.Memp.{Ptr}
use ocaml_lwip.Arp.{
  Arp, Entry, EtharpState, empty, pending, stable, blank, entry, expired, older, tmr, tmr_loop,
  maxage, maxpending, given_up,
}

-- The age at which an entry is given up; an empty one is never.
abbrev pub limit : EtharpState → ℕ
limit empty = 256
limit pending = maxpending
limit stable = maxage

abbrev pub IsYoung : Entry → Type 0
IsYoung e = e.ctime < limit e.state

-- The state of an entry of this age after `n` calls.
abbrev pub survives : ℕ → EtharpState → ℕ → EtharpState
survives n st ctime = if ltb (ctime + n) (limit st) then st else empty

-- `n` calls, one after the other.
pub ticks : ℕ → Cmd Arp (Unit {0})
ticks zero = pure tt
ticks (suc n) = tmr >> ticks n

tmr_loop-get :
    (es : List Entry) (freed : List Ptr) (j : ℕ)
    → j < length es
    → get_or (tmr_loop es freed).0 j blank ≡ older (get_or es j blank)
unfolding tmr_loop
tmr_loop-get [] freed j lt = absurd (omega arith)
tmr_loop-get (e ∷ es) freed zero lt = refl
tmr_loop-get (e ∷ es) freed (suc j) lt = tmr_loop-get es (given_up e ++ freed) j (omega arith)

tmr_loop-length : (es : List Entry) (freed : List Ptr) → length (tmr_loop es freed).0 ≡ length es
unfolding tmr_loop
tmr_loop-length [] freed = refl
tmr_loop-length (e ∷ es) freed = ap suc (tmr_loop-length es (given_up e ++ freed))

survives_gone :
    (st : EtharpState) (c n : ℕ)
    → c < limit st
    → expired st (u8 (c + 1)) ≡ true
    → survives (suc n) st c ≡ empty
survives_gone empty c n lt x = cc
survives_gone pending c n lt x = ground arith
survives_gone stable c n lt x = ground arith

either_empty : (b : Bool) → (if b then empty else empty) ≡ empty
either_empty true = refl
either_empty false = refl

survives_stays :
    (st : EtharpState) (c n : ℕ)
    → c < limit st
    → expired st (u8 (c + 1)) ≡ false
    → (survives (suc n) st c ≡ survives n st (u8 (c + 1))) × (u8 (c + 1) < limit st)
survives_stays empty c n lt x = (
  either_empty (ltb (c + suc n) 256) ∙ sym (either_empty (ltb (u8 (c + 1) + n) 256)),
  omega arith,
)
survives_stays pending c n lt x = ground arith
survives_stays stable c n lt x = ground arith

survives_empty : (n c : ℕ) → survives n empty c ≡ empty
survives_empty n c = either_empty (ltb (c + n) 256)

-- An entry that is not too old, after `n` calls of etharp_tmr with nothing in between: it is there in
-- its state as long as its age and `n` make less than 240 for a stable entry and 2 for a pending
-- one, and is empty from then on.
pub ticks-survives :
    (n : ℕ) (s : Arp) (j : ℕ)
    → j < length s.table
    → IsYoung (entry s j)
    → Returns
        (λ _ g. (entry g j).state ≡ survives n (entry s j).state (entry s j).ctime)
        (ticks n s)
unfolding ticks tmr
ticks-survives zero s j lt young =
    let now : ltb ((entry s j).ctime + 0) (limit (entry s j).state) ≡ true = ground arith in
    rw now (returns refl)
ticks-survives (suc n) s j lt young =
    let s' : Arp = record s {
      table = (tmr_loop s.table s.freed).0;
      freed = (tmr_loop s.table s.freed).1;
    } in
    let e : Entry = entry s j in
    let now : entry s' j ≡ older e = tmr_loop-get s.table s.freed j lt in
    let lt' : j < length s'.table = omega (arith, tmr_loop-length s.table s.freed) in
    elim (Bool-cases (expired e.state (u8 (e.ctime + 1)))) [
      | inl x ↦
          let gone : entry s' j ≡ record e { q = []; state = empty; ctime = u8 (e.ctime + 1) } =
            now ∙ rw x refl in
          let young' : IsYoung (entry s' j) =
            subst (λ (y : Entry). IsYoung y) (sym gone) (omega arith) in
          Returns-mono (ticks-survives n s' j lt' young') (λ _ g t.
            t
            ∙ ap (λ (y : Entry). survives n y.state y.ctime) gone
            ∙ survives_empty n (u8 (e.ctime + 1))
            ∙ sym (survives_gone e.state e.ctime n young x))
      | inr x ↦
          let stays : entry s' j ≡ record e { ctime = u8 (e.ctime + 1) } = now ∙ rw x refl in
          let (same, young1) = survives_stays e.state e.ctime n young x in
          let young' : IsYoung (entry s' j) = subst (λ (y : Entry). IsYoung y) (sym stays) young1 in
          Returns-mono (ticks-survives n s' j lt' young')
            (λ _ g t. t ∙ ap (λ (y : Entry). survives n y.state y.ctime) stays ∙ sym same)
    ]
