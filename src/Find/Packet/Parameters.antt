-- ===== src/Find/Packet/Parameters.antt =====
-- The parameters of a FIND packet by their position.
use arinc_615a_cli_tool_suit.Base.{
  List, [], ap, arith, err, length, ok, out_of_range, refl, suc, zero, ℕ, ◌<◌, ◌∷◌, ◌≡◌, ◌≢◌, ◌≤◌,
}
use arinc_615a_cli_tool_suit.Find.Packet.{
  Packet, assign_at, get_parameter, parameter_at, set_parameter,
}

assign_at_lem :
    (parameters : List (List ℕ)) (position : ℕ) (parameter : List ℕ)
    → position < length parameters
    → (changed : List (List ℕ)) × (assign_at parameters position parameter ≡ ok changed)
      × (length changed ≡ length parameters)
      × (parameter_at changed position ≡ ok parameter)
      × ((other : ℕ)
          → other ≢ position
          → parameter_at changed other ≡ parameter_at parameters other)
unfolding assign_at parameter_at
assign_at_lem [] position parameter h = absurd (omega arith)
assign_at_lem (p ∷ parameters) zero parameter h = (parameter ∷ parameters, refl, refl, refl, kept)
  where
    kept :
        (other : ℕ)
        → other ≢ 0
        → parameter_at (parameter ∷ parameters) other ≡ parameter_at (p ∷ parameters) other
    kept zero n = absurd (n refl)
    kept (suc other) n = refl
assign_at_lem (p ∷ parameters) (suc position) parameter h =
    let (changed, done, size, got, same) =
      assign_at_lem parameters position parameter (omega arith) in
    (p ∷ changed, rw done refl, ap suc size, got, kept changed same)
  where
    kept :
        (changed : List (List ℕ))
        → ((other : ℕ)
            → other ≢ position
            → parameter_at changed other ≡ parameter_at parameters other)
        → (other : ℕ) → other ≢ suc position
        → parameter_at (p ∷ changed) other ≡ parameter_at (p ∷ parameters) other
    kept changed same zero n = refl
    kept changed same (suc other) n = same other (λ e. n (ap suc e))

-- A parameter within the list is replaced: it is read back, while the opcode, the number of
-- parameters and any other parameter stay.
get_parameter-set_parameter :
    (packet : Packet) (position other : ℕ) (parameter : List ℕ)
    → position < length packet.parameters_v
    → other ≢ position
    → (changed : Packet) × (set_parameter packet position parameter ≡ ok changed)
      × (changed.opcode_v ≡ packet.opcode_v)
      × (length changed.parameters_v ≡ length packet.parameters_v)
      × (get_parameter changed position ≡ ok parameter)
      × (get_parameter changed other ≡ get_parameter packet other)
unfolding set_parameter get_parameter
get_parameter-set_parameter packet position other parameter h n =
    let (changed, done, size, got, same) = assign_at_lem packet.parameters_v position parameter h in
    (
      record { opcode_v = packet.opcode_v; parameters_v = changed },
      rw done refl,
      refl,
      size,
      got,
      same other n,
    )

parameter_at_refused :
    (parameters : List (List ℕ)) (position : ℕ) (parameter : List ℕ)
    → length parameters ≤ position
    → (parameter_at parameters position ≡ err out_of_range)
      × (assign_at parameters position parameter ≡ err out_of_range)
unfolding parameter_at assign_at
parameter_at_refused [] position parameter h = (refl, refl)
parameter_at_refused (p ∷ parameters) zero parameter h = absurd (omega arith)
parameter_at_refused (p ∷ parameters) (suc position) parameter h =
    let (reads, writes) = parameter_at_refused parameters position parameter (omega arith) in
    (reads, rw writes refl)

-- A position behind the list is refused, for reading and for writing.
parameter_out_of_range :
    (packet : Packet) (position : ℕ) (parameter : List ℕ)
    → length packet.parameters_v ≤ position
    → (get_parameter packet position ≡ err out_of_range)
      × (set_parameter packet position parameter ≡ err out_of_range)
unfolding get_parameter set_parameter
parameter_out_of_range packet position parameter h =
    let (reads, writes) = parameter_at_refused packet.parameters_v position parameter h in
    (reads, rw writes refl)
