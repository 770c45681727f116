-- ===== src/Tests/Threads.antt =====
-- The reader at a concrete world.
use c_axon.Base.{◌≡◌, ◌∷◌, ◌*◌, refl, false, pos, negsuc, arith, ok}
use c_axon.Sock.State.{reader, Event}
use c_axon.Sock.Chain.Start.{write_worker}
use c_axon.Sock.Reader.{backoff, reader_attempt}
use c_axon.Sock.Reader.Attempt.{reader_attempt_fails}
use c_axon.Tests.Api.{net, local, local_worker}

reader_attempt_fails_example :
    reader_attempt 60 100 (pos 7) (negsuc 0) net
    ≡ ok
        (backoff 100, false)
        (record (write_worker 60
          (record local_worker { role = reader (record local { socket = pos 7 }) })
          net) { log = Event.slept (backoff 100 * 1000) ∷ net.log })
reader_attempt_fails_example =
    reader_attempt_fails 60 local_worker local 100 net (omega arith) refl refl (pos 7) (negsuc 0)
      refl
