-- ===== src/Net.antt =====
-- What the runtime's URL parser, resolver and HTTP client hand to the program. They are no code of
-- the repository: the environment answers for them.
use docklane.Prelude.{ℕ, String, Text, Option}

-- new URL(…): the parts that the program reads. The texts that are walked are lists of code units.
pub record Url : Type 0 where
  pub protocol : String
  pub username : String
  pub password : String
  pub host : Text
  pub hostname : Text

-- An address of a name, as isIP sorts it; the octets of an IPv4 address are numbers below 256.
pub data Address : Type 0 where
  v4 : (a b c d : ℕ) → Address
  v6 : Text → Address
  other : Address

pub record Response : Type 0 where
  pub status : ℕ
  pub location : Option String
