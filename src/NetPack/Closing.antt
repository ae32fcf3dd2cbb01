-- ===== src/NetPack/Closing.antt =====
-- lualib-src/lua-netpack.c: what a socket that is closed leaves behind.
use m2_server.Common.{ℕ, ◌≡◌, ◌≢◌, refl, sym, subst, arith, ◌⊎◌, inl, inr, none, some, List}
use m2_server.NetPack.{NetPack, Queue, SocketMessage, Notice, filter, close_uncomplete}
use m2_server.NetPack.Ring.{Represents, Represents-hash}
use m2_server.NetPack.Chains.{Tidy, waiting, find_uncomplete_lem}

-- No uncomplete packet waits for the socket; the others and the ring are as they were.
pub record Forgets (q : Queue) (fd : ℕ) (ms : List NetPack) (q' : Queue) : Type 0 where
  pub gone : waiting q' fd ≡ none
  pub others : (i : ℕ) → i ≢ fd → waiting q' i ≡ waiting q i
  pub tidy : Tidy q'
  pub represents : Represents q' ms

close_uncomplete-Forgets :
    (q : Queue) (fd : ℕ) (ms : List NetPack)
    → Represents q ms
    → Tidy q
    → Forgets q fd ms (close_uncomplete q fd)
unfolding close_uncomplete
close_uncomplete-Forgets q fd ms r t = elim (find_uncomplete_lem q fd t) [
  | inl (e, free) ↦
      subst (λ x. Forgets q fd ms x.1) (sym e)
        (record { gone = free; others = λ i ne. refl; tidy = t; represents = r })
  | inr (uc, hash', e, f) ↦
      subst (λ x. Forgets q fd ms x.1) (sym e)
        (record {
          gone = f.gone;
          others = f.others;
          tidy = f.tidy;
          represents = Represents-hash hash' r;
        })
]

-- When `lfilter` gets the close or the error of a socket, it returns, and the uncomplete packet of the
-- socket is gone, so that bytes which come in later for the same number begin a new packet. The uncomplete
-- packets of other sockets wait as before, and the ring of complete packets, those of the socket among
-- them, holds what it held.
pub filter-Forgets :
    (q : Queue) (m : SocketMessage) (ms : List NetPack)
    → (m.type ≡ 3) ⊎ (m.type ≡ 5)
    → Represents q ms
    → Tidy q
    → (n : Notice) × (q' : Queue) × (filter q m ≡ some (n, q')) × Forgets q m.id ms q'
unfolding filter
filter-Forgets q m ms (inl e) r t = (
  Notice.closed m.id,
  close_uncomplete q m.id,
  ground (arith, e),
  close_uncomplete-Forgets q m.id ms r t,
)
filter-Forgets q m ms (inr e) r t = (
  Notice.failed m.id m.text,
  close_uncomplete q m.id,
  ground (arith, e),
  close_uncomplete-Forgets q m.id ms r t,
)
