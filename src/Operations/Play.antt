-- ===== src/Operations/Play.antt =====
-- src/operations/play.c: the playback plugin. Its sources, the tags of a file, the handlers with the
-- table of messages, and what playing and stopping a source do together are modules of their own.
-- What is freed is left as a value.
pub mod Sources
pub mod Tags
pub mod TagsPipeline
pub mod Handlers
pub mod Stop
pub mod Ran
pub mod Limits
pub mod Release
pub mod Created
pub mod TagsReply
pub mod Preroll
pub mod TagsText
pub mod Invariant
pub mod StopAny
pub mod Players
pub mod Balance
