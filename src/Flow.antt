-- ===== src/Flow.antt =====
-- Flow groups (core/ethfg.c, inc/kns/ethfg.h) and receive queues (core/ethqueue.c,
-- inc/kns/ethqueue.h): each flow group belongs to one CPU, and a migration moves it to another
-- without losing or reordering its packets.
pub mod Queue
pub mod World
pub mod Recv
pub mod Held
pub mod RecvLaws
pub mod Delivery
pub mod Migrate
pub mod Unlink
pub mod MigrateStep
pub mod MigrateLaws
pub mod Transition
pub mod TransitionLaws
pub mod Assign
pub mod AssignAll
pub mod AssignGiven
pub mod AssignAllLaws
pub mod Handover
mod Tests
mod HandoverTests
