-- ===== src/Examples/Sequences.antt =====
-- A sequence of calls from the example installation: a login, a second later a logout.
use secure_auth_x_pro.Prelude.{◌+◌, true, arith}
use secure_auth_x_pro.Prisma.{reference, reference-IsPrisma}
use secure_auth_x_pro.Schema.{Store}
use secure_auth_x_pro.Auth.Login.{LoginInput, login}
use secure_auth_x_pro.Auth.Logout.{logout}
use secure_auth_x_pro.System.Lifecycle.{phase, ◌⟶◌}
use secure_auth_x_pro.System.Reachable.{
  Reachable, here, after, logs_in, logs_out, waits, Reachable-phase,
}
use secure_auth_x_pro.Examples.{world, store, request}

abbrev pub credentials : LoginInput
credentials = record { email = "alice@example.com"; password = "correct horse"; remember_me = true }

abbrev pub after_login : Store
after_login = (login reference world credentials request store).1

abbrev pub a_second_later : Store
a_second_later = record after_login { now = after_login.now + 1000 }

abbrev pub after_logout : Store
after_logout = (logout reference world request a_second_later).1

abbrev pub session_ended : Reachable reference world store after_logout
session_ended =
    after a_second_later _ request
      (after after_login _ request (after store _ request here (logs_in credentials))
        (waits (after_login.now + 1000) (omega arith)))
      logs_out

Reachable-phase_example : phase "s1" store.sessions ⟶ phase "s1" after_logout.sessions
Reachable-phase_example =
    Reachable-phase reference-IsPrisma world store after_logout "s1" session_ended
