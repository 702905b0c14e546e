-- ===== src/Policy/Reserve/Failure.antt =====
-- What a reservation that is refused or fails leaves behind (internal/policy/policy.go, `Reserve`
-- and `Evaluate`).
use daxie.Policy.Types.{Policy}
use daxie.Policy.Reservation.{Reservation}
use daxie.Policy.Store.{Store}
