-- ===== src/Process.antt =====
-- src/process.rs: the line editor, the processes and the shell; and the ssh command of src/net.rs.
pub mod Editor
pub mod EditorLaws
pub mod Shell
pub mod ShellLaws
pub mod Table
mod TableLaws
mod KeyLaws
mod PromptLaws
mod Tests
