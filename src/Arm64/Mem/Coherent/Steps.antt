-- ===== src/Arm64/Mem/Coherent/Steps.antt =====
-- The small steps of internal/arm64/mem.go and the invariant of its caches.
use gonidbg.Base.{ℕ, ◌≡◌, refl, arith, none, some}
use gonidbg.Arm64.Mem.{Memory, Page}
use gonidbg.Arm64.Mem.Table.{lookup, lookup-set_page, lookup-beyond}
use gonidbg.Arm64.Mem.Tlb.{flush_tlb, drop_code}
use gonidbg.Arm64.Mem.Coherent.{IsOwned, IsCached, IsCoherent}

flush_tlb-IsCached : (m : Memory) → IsCached (flush_tlb m)
unfolding flush_tlb
flush_tlb-IsCached m = record {
  reads = λ k. refl;
  writes = λ k. refl;
  codes = λ k. refl;
  executing = refl;
}

pub flush_tlb-IsCoherent : (m : Memory) → IsOwned m → IsCoherent (flush_tlb m)
unfolding flush_tlb
flush_tlb-IsCoherent m o = record {
  owned = record {
    zeros = o.zeros;
    narrow = o.narrow;
    room = o.room;
    bounded = o.bounded;
    apart = o.apart;
  };
  cached = flush_tlb-IsCached m;
}

module _ (m : Memory) (co : IsCoherent m) (vpn : ℕ) (p : Page) (here : lookup m vpn ≡ some p) where
  pub drop_code-IsCoherent : IsCoherent (drop_code m vpn p)
  unfolding drop_code
  drop_code-IsCoherent = record {
    owned = record {
      zeros = co.owned.zeros;
      narrow = co.owned.narrow;
      room = co.owned.room;
      bounded = λ v. ground (
        arith,
        here,
        lookup-beyond m vpn p here,
        lookup-set_page m vpn v (some (record p { code = none })),
        co.owned.bounded v,
      );
      apart = λ v w. ground (
        arith,
        here,
        lookup-beyond m vpn p here,
        lookup-set_page m vpn v (some (record p { code = none })),
        lookup-set_page m vpn w (some (record p { code = none })),
        co.owned.apart v w,
      );
    };
    cached = record {
      reads = λ k. ground (
        arith,
        here,
        lookup-beyond m vpn p here,
        lookup-set_page m vpn (m.rtlb k).vpn (some (record p { code = none })),
        co.cached.reads k,
      );
      writes = λ k. ground (
        arith,
        here,
        lookup-beyond m vpn p here,
        lookup-set_page m vpn (m.wtlb k).vpn (some (record p { code = none })),
        co.cached.writes k,
      );
      codes = λ k. ground (
        arith,
        here,
        lookup-beyond m vpn p here,
        lookup-set_page m vpn (m.ctlb k).vpn (some (record p { code = none })),
        co.cached.codes k,
      );
      executing = ground (
        arith,
        here,
        lookup-beyond m vpn p here,
        lookup-set_page m vpn m.fetch_vpn (some (record p { code = none })),
        co.cached.executing,
      );
    };
  }
