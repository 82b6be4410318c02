-- ===== src/Tcp/Server/Counted.antt =====
-- src/tudou/tcp/TcpServer.cpp: the count and the tables.
use tudou.Prelude.{ℕ, ◌+◌, ◌≤◌, ◌≡◌, ap, sym, ◌∙◌, arith, number_eq, count_key}
use tudou.Tcp.Server.{TcpServer, stop, on_connect, refresh_connection_heartbeat, on_message}
use tudou.Tcp.Server.Table.{total, Tidies}

-- The count is right, and a connection stands once in a table.
pub record IsCounted (s : TcpServer) : Type 0 where
  pub counted : s.active_connection_count ≡ total s.connection_records_by_loop
  pub few : total s.connection_records_by_loop ≤ s.allocated
  pub tidy : Tidies s.allocated s.connection_records_by_loop
  pub apart : (loop : ℕ) → count_key loop s.connection_records_by_loop ≤ 1

-- What a step leaves: at most one connection more is allocated.
pub record Counts (s s' : TcpServer) : Type 0 where
  pub sound : IsCounted s'
  pub more : s'.allocated ≤ s.allocated + 1

-- The parts that the invariant speaks of are as before.
pub record SameTable (s s' : TcpServer) : Type 0 where
  pub records : s'.connection_records_by_loop ≡ s.connection_records_by_loop
  pub count : s'.active_connection_count ≡ s.active_connection_count
  pub ids : s'.allocated ≡ s.allocated

pub SameTable-Counts : (s s' : TcpServer) → SameTable s s' → IsCounted s → Counts s s'
SameTable-Counts s s' e c = record {
  sound = record {
    counted = e.count ∙ c.counted ∙ ap total (sym e.records);
    few = omega (arith, ap total e.records, e.ids, c.few);
    tidy = rw e.records (rw e.ids c.tidy);
    apart = λ loop. omega (arith, ap (count_key loop) e.records, c.apart loop);
  };
  more = omega (arith, e.ids);
}

pub on_connect-SameTable : (s : TcpServer) → SameTable s (on_connect s)
unfolding on_connect
on_connect-SameTable s = record { records = ground arith; count = ground arith; ids = ground arith }

pub stop-SameTable : (s : TcpServer) → SameTable s (stop s)
unfolding stop
stop-SameTable s = record { records = ground arith; count = ground arith; ids = ground arith }

pub on_message-SameTable : (s : TcpServer) (loop conn : ℕ) → SameTable s (on_message s loop conn)
unfolding on_message refresh_connection_heartbeat
on_message-SameTable s loop conn = record {
  records = ground arith;
  count = ground arith;
  ids = ground arith;
}
