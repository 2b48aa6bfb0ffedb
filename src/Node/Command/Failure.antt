-- ===== src/Node/Command/Failure.antt =====
-- What a run of the command that serves a subcommand, or fails, has not done.
use my_polkadot_orcale.Node.Command.{Node}
