-- ===== src/HubPrograms/Tests.antt =====
-- Arguments of the programs, and the theorem about them.
use summer.Prelude.{ℕ, ◌≡◌, refl, arith, if◌then◌else◌, [], ◌∷◌, ◌++◌}
use summer.Decimal.{Text, decimal, value_from, value-decimal}
use summer.Codec.{same}
use summer.Sockets.{Sockaddr, to_host_port}
use summer.Sockets.Machine.{localhost, loopback, machine, machine-IsDocumented}
use summer.HubPrograms.{
  pub_usage, publish_input, publish_once, subscribe_to, dash, pub_command, sub_command,
}
use summer.HubPrograms.Commands.{commands-address}

-- `atoi` of a text of digits.
abbrev atoi : Text → ℕ
atoi t = value_from 0 t

abbrev topic : Text
topic = b't' ∷ []

abbrev address : Text
address = localhost ++ (b':' ∷ decimal 2016)

too_few : pub_command machine atoi (topic ∷ topic ∷ []) ≡ pub_usage
unfolding pub_command
too_few = refl

commands-address_example :
    (a : Sockaddr) × (to_host_port machine a ≡ address)
    × (pub_command machine atoi ([] ∷ address ∷ topic ∷ dash ∷ [])
        ≡ (if same dash dash then publish_input a topic else publish_once a topic dash))
    × (sub_command machine atoi ([] ∷ address ∷ topic ∷ []) ≡ subscribe_to a (topic ∷ []))
commands-address_example =
    commands-address machine machine-IsDocumented atoi loopback localhost 2016 refl (ground arith)
      (omega arith) (value-decimal 2016) [] topic dash []
